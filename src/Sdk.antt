-- ===== src/Sdk.antt =====
-- packages/sdk-python: the client of model_courier_sdk/client.py. What the HTTP client does at each
-- attempt is an argument; a time is a whole number, and the backoff is one.
pub mod Requests
pub mod Tasks
pub mod Waiting
pub mod Tests
use Prim.Native.String.{◌++◌ as join}
use model_courier.Prelude.{
  ℕ, zero, suc, ◌+◌, ◌-◌, ◌*◌, ◌^◌, min, String, Bool, true, false, Option, none, some, List, [],
  ◌∷◌, length, not, leb, ltb, eqb, ◌==◌, ◌&&◌, ◌||◌, if◌then◌else◌,
}
use model_courier.Prelude.Int.{ℤ, pos, negsuc}
use model_courier.Contracts.{ArtifactRef, TaskEnvelope, ErrorEnvelope}
use model_courier.Agent.Json.{Value, object, get}

-- A response: `json` is what `response.json()` parses, or a ValueError.
pub record Reply : Type 0 where
  pub status_code : ℕ
  pub json : Option Value
  pub text : String

-- What `self._client.request` does: a TransportError, or a response.
pub data Attempt : Type 0 where
  transport_error : Attempt
  replied : Reply → Attempt

-- What the client does in the course of a call.
pub data Action : Type 0 where
  requests : (attempt : ℕ) → Action
  sleeps : (time : ℕ) → Action

-- How a call ends: with a response, or with an exception. `not_a_dict` is the AttributeError of a
-- detail that is read from a list, `unassigned` the failed assertion.
pub data Outcome : Type 0 where
  returns : Reply → Outcome
  model_courier_error : (status_code : ℕ) → (detail : String) → Outcome
  transport_raised not_a_dict unassigned : Outcome

abbrev pub is_transient : ℕ → Bool
is_transient status_code =
    eqb status_code 429
    || eqb status_code 500
    || eqb status_code 502
    || eqb status_code 503
    || eqb status_code 504

abbrev pub is_error : ℕ → Bool
is_error status_code = leb 400 status_code && ltb status_code 600

abbrev pub or_body : Option Value → Value → Value
or_body none body = body
or_body (some detail) body = detail

abbrev pub nap : ℕ → ℕ → List Action → List Action
nap retry_backoff attempt rest =
    if eqb retry_backoff 0 then rest else sleeps (retry_backoff * 2 ^ attempt) ∷ rest

module _ (show : Value → String) where
  -- The end of `_request`.
  abbrev pub raise_for : ℕ → String → Option Value → Outcome
  raise_for status_code text none = model_courier_error status_code text
  raise_for status_code text (some (object body)) =
      model_courier_error status_code (show (or_body (get "detail" body) (object body)))
  raise_for status_code text (some _) = not_a_dict

  abbrev pub checked : Reply → Outcome
  checked r = if is_error r.status_code then raise_for r.status_code r.text r.json else returns r

  abbrev pub checked_last : Option Reply → Outcome
  checked_last none = unassigned
  checked_last (some r) = checked r

  -- The loop of `_request` with `left` attempts after this one, and the last response.
  unfoldable pub request_from :
      ℕ → (ℕ → Attempt) → ℕ → ℕ → Option Reply → Attempt → List Action × Outcome
  request_from retry_backoff server zero attempt response transport_error =
      (requests attempt ∷ [], transport_raised)
  request_from retry_backoff server zero attempt response (replied r) =
      if is_transient r.status_code
      then (requests attempt ∷ nap retry_backoff attempt [], checked_last (some r))
      else (requests attempt ∷ [], checked_last (some r))
  request_from retry_backoff server (suc left) attempt response transport_error =
      let (actions, outcome) =
        request_from retry_backoff server left (attempt + 1) response (server (attempt + 1)) in
      (requests attempt ∷ nap retry_backoff attempt actions, outcome)
  request_from retry_backoff server (suc left) attempt response (replied r) =
      let (actions, outcome) =
        request_from retry_backoff server left (attempt + 1) (some r) (server (attempt + 1)) in
      if is_transient r.status_code
      then (requests attempt ∷ nap retry_backoff attempt actions, outcome)
      else (requests attempt ∷ [], checked_last (some r))

  unfoldable pub request : ℕ → ℕ → (ℕ → Attempt) → List Action × Outcome
  request max_retries retry_backoff server =
      request_from retry_backoff server max_retries 0 none (server 0)
