-- ===== src/Worker/Runtime.antt =====
-- worker/runtime.py: one round of the worker, and its loop. What the HTTP client answers and what the
-- provider does is the argument `World`; a lease that does not parse is among the refused polls. The
-- heartbeats come from another thread (Heartbeats) and are not in the list of requests.
pub mod Settling
pub mod Reporting
pub mod Heartbeats
use Prim.Native.String.{◌++◌ as join}
use model_courier.Prelude.{
  ℕ, ◌≡◌, refl, ◌⊎◌, inl, inr, String, Bool, true, false, Option, none, some, List, [], ◌∷◌, ◌++◌,
  if◌then◌else◌, Bool-cases, Option-cases, sym, subst,
}
use mathlib.Core.List.{append-nil}
use model_courier.Prelude.Texts.{first_chars}
use model_courier.Contracts.{TaskEnvelope, ErrorEnvelope, ProviderResult, CapabilityManifest}
use model_courier.Worker.Factory.{ProviderFactory, create, capabilities}
use model_courier.Worker.ProcessRunner.{
  ProviderError, Execution, Outcome, result, failure, invalid, execute,
}

pub record RunOutcome : Type 0 where
  pub status : String
  pub task_id : Option String
  pub message : Option String

-- The body of an answered poll.
pub record Offer : Type 0 where
  pub task_id : String
  pub lease_generation : ℕ
  pub lease_token : String
  pub capability_id : String
  pub task : TaskEnvelope

pub data PollAnswer : Type 0 where
  no_content refused : PollAnswer
  offered : Offer → PollAnswer

-- What the two `except` clauses tell apart; another exception is its text.
pub data Caught : Type 0 where
  provider_error : ProviderError → Caught
  other : String → Caught

pub data Request : Type 0 where
  registers : List CapabilityManifest → Request
  polls : Request
  starts downloads : (task_id : String) → Request
  publishes : (task_id : String) → ProviderResult → Request
  fails : (task_id : String) → ErrorEnvelope → Request

-- `run_once` returns, or an exception leaves it.
pub data Run : Type 0 where
  returns_outcome : RunOutcome → Run
  leaves : Run

-- What `work` ends with: the result is published, or an exception is caught.
pub data Attempt : Type 0 where
  published : Attempt
  caught : Caught → Attempt

abbrev pub idle : Run
idle = returns_outcome (record { status = "idle"; task_id = none; message = none })

abbrev pub succeeded : String → Run
succeeded task_id =
    returns_outcome (record { status = "succeeded"; task_id = some task_id; message = none })

abbrev pub failed : String → String → Run
failed task_id message =
    returns_outcome (record { status = "failed"; task_id = some task_id; message = some message })

-- `str(exc)`
abbrev pub message_of : Caught → String
message_of (provider_error e) = e.message
message_of (other text) = text

abbrev pub error_of : String → Caught → ErrorEnvelope
error_of task_id (provider_error e) = record {
  code = e.code;
  message = e.message;
  retryable = e.retryable;
  request_id = join "worker-" task_id;
}
error_of task_id (other text) = record {
  code = "worker_execution_error";
  message = first_chars 512 text;
  retryable = true;
  request_id = join "worker-" task_id;
}

module _ (Provider Config : Type 0) where
  -- The answers to the requests of one round: an exception of the client is its text, and of the
  -- requests that nothing catches only whether they went well counts. `strip` and `refusal` are
  -- those of the process runner.
  pub record World : Type 0 where
    pub poll : PollAnswer
    pub start : Bool
    pub validate : Provider → TaskEnvelope → Option Caught
    pub download : Option String
    pub execution : Provider → TaskEnvelope → Execution
    pub strip : String → String
    pub refusal : ProviderResult → String
    pub publication : Option String
    pub failing : Bool

  abbrev pub publish : World → String → Outcome → Attempt × List Request
  publish w task_id (failure e) = (caught (provider_error e), [])
  publish w task_id (invalid text) = (caught (other text), [])
  publish w task_id (result r) = elim w.publication [
    | none ↦ (published, publishes task_id r ∷ [])
    | some text ↦ (caught (other text), publishes task_id r ∷ [])
  ]

  abbrev pub run_provider : World → Offer → Provider → Outcome
  run_provider w offer provider = execute w.strip w.refusal (w.execution provider offer.task)

  -- The `try` block.
  unfoldable pub work : World → Offer → Provider → Attempt × List Request
  work w offer provider = elim (w.validate provider offer.task) [
    | some c ↦ (caught c, [])
    | none ↦ elim w.download [
      | some text ↦ (caught (other text), downloads offer.task_id ∷ [])
      | none ↦
          let (a, requests) = publish w offer.task_id (run_provider w offer provider) in
          (a, downloads offer.task_id ∷ requests)
    ]
  ]

  -- The `except` clauses.
  abbrev pub report : World → String → Attempt → Run × List Request
  report w task_id published = (succeeded task_id, [])
  report w task_id (caught c) = (
    if w.failing then failed task_id (message_of c) else leaves,
    fails task_id (error_of task_id c) ∷ [],
  )

  unfoldable pub run_offer : World → Offer → Provider → Run × List Request
  run_offer w offer provider =
      let (a, requests) = work w offer provider in
      let (r, last) = report w offer.task_id a in (r, requests ++ last)

  -- `self.factory.create(capability_id)` with the empty configuration
  unfoldable pub run_once : Config → ProviderFactory Provider Config → World → Run × List Request
  run_once config factory w = elim w.poll [
    | no_content ↦ (idle, polls ∷ [])
    | refused ↦ (leaves, polls ∷ [])
    | offered offer ↦
        if w.start
        then elim (create Provider Config offer.capability_id config factory) [
          | none ↦ (leaves, polls ∷ starts offer.task_id ∷ [])
          | some provider ↦
              let (r, requests) = run_offer w offer provider in
              (r, polls ∷ starts offer.task_id ∷ requests)
        ]
        else (leaves, polls ∷ starts offer.task_id ∷ [])
  ]

  -- `run_forever`: the loop has a world for each round until the stop event is set. It ends early
  -- when an exception leaves a round; the waiting after an idle round is not modelled.
  abbrev pub after_round : Run × List Request → Bool × List Request → Bool × List Request
  after_round (leaves, requests) rest = (false, requests)
  after_round (returns_outcome o, requests) rest = (rest.0, requests ++ rest.1)

  unfoldable pub rounds :
      Config → ProviderFactory Provider Config → List World → Bool × List Request
  rounds config factory [] = (true, [])
  rounds config factory (w ∷ ws) =
      after_round (run_once config factory w) (rounds config factory ws)

  unfoldable pub run_forever :
      Bool → Config → ProviderFactory Provider Config → List World → Bool × List Request
  run_forever registered config factory ws =
      let (ended, requests) = rounds config factory ws in
      let sent = registers (capabilities Provider Config factory) in
      if registered then (ended, sent ∷ requests) else (false, sent ∷ [])
