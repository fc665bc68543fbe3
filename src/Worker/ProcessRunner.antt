-- ===== src/Worker/ProcessRunner.antt =====
-- worker/process_runner.py with the errors of worker/provider.py. How the provider behaves in the
-- child process, and whether the child ends in time, is the argument `Execution`.
use model_courier.Prelude.{◌≡◌, String, Bool, true, none, some, inl, inr, Option-cases}
use model_courier.Prelude.Texts.{first_chars}
use model_courier.Contracts.{ProviderResult}
use model_courier.Contracts.Models.{validate_result}

pub record ProviderError : Type 0 where
  pub code : String
  pub message : String
  pub retryable : Bool

-- `provider.execute` returns, raises a ProviderError or another exception (its type and text), does
-- not end before the timeout, or takes the process down.
pub data Execution : Type 0 where
  returns : ProviderResult → Execution
  raises : ProviderError → Execution
  crashes : (type_name text : String) → Execution
  hangs dies : Execution

-- What the child puts into the queue.
pub data Message : Type 0 where
  ok : ProviderResult → Message
  provider_error : (code message : String) → Bool → Message
  error : (type_name message : String) → Message

-- The state of the child when `join(timeout)` returns: alive, or ended with or without a message.
pub data Child : Type 0 where
  alive silent : Child
  ended : Message → Child

-- `_execute_child`
unfoldable pub execute_child : Execution → Child
execute_child (returns result) = ended (ok result)
execute_child (raises e) = ended (provider_error e.code e.message e.retryable)
execute_child (crashes type_name text) = ended (error type_name (first_chars 512 text))
execute_child hangs = alive
execute_child dies = silent

-- The last is the text of a ValidationError, which is no ProviderError.
pub data Outcome : Type 0 where
  result : ProviderResult → Outcome
  failure : ProviderError → Outcome
  invalid : String → Outcome

abbrev pub timed_out : ProviderError
timed_out = record {
  code = "provider_timeout";
  message = "provider exceeded its execution deadline";
  retryable = true;
}

abbrev pub gone : ProviderError
gone = record {
  code = "provider_crashed";
  message = "provider process exited without a result";
  retryable = true;
}

-- `strip` is what pydantic strips off a text, and `refusal` the text of the error with which it refuses
-- a result.
module _ (strip : String → String) (refusal : ProviderResult → String) where
  -- `ProviderResult.model_validate`
  abbrev pub validated : ProviderResult → Outcome
  validated raw = elim (validate_result strip raw) [
    | some r ↦ result r
    | none ↦ invalid (refusal raw)
  ]

  -- `ProcessRunner.execute` after the join.
  unfoldable pub collect : Child → Outcome
  collect alive = failure timed_out
  collect silent = failure gone
  collect (ended (ok raw)) = validated raw
  collect (ended (provider_error code message retryable)) =
      failure (record { code = code; message = message; retryable = retryable })
  collect (ended (error type_name message)) =
      failure (record { code = "provider_error"; message = message; retryable = true })

  unfoldable pub execute : Execution → Outcome
  unfolding execute_child collect
  execute e = collect (execute_child e)

  -- What the runner owes to an execution.
  pub data Reports : Execution → Outcome → Type 0 where
    returned :
        (raw r : ProviderResult)
        → validate_result strip raw ≡ some r
        → Reports (returns raw) (result r)
    refused :
        (raw : ProviderResult)
        → validate_result strip raw ≡ none
        → Reports (returns raw) (invalid (refusal raw))
    raised : (e : ProviderError) → Reports (raises e) (failure e)
    crashed :
        (type_name text : String)
        → Reports (crashes type_name text) (
            failure (record {
              code = "provider_error";
              message = first_chars 512 text;
              retryable = true;
            }))
    hung : Reports hangs (failure timed_out)
    died : Reports dies (failure gone)

  validated-Reports : (raw : ProviderResult) → Reports (returns raw) (validated raw)
  validated-Reports raw = elim (Option-cases (validate_result strip raw)) [
    | inl n ↦ rw (n, validated) (refused raw n)
    | inr (r, v) ↦ rw (v, validated) (returned raw r v)
  ]

  -- The runner passes on the provider's result, if it is valid, and its ProviderErrors. An execution
  -- that crashes, hangs or dies is reported as a failure that may be retried.
  pub execute-Reports : (x : Execution) → Reports x (execute x)
  unfolding execute execute_child collect
  execute-Reports (returns raw) = validated-Reports raw
  execute-Reports (raises e) = raised e
  execute-Reports (crashes type_name text) = crashed type_name text
  execute-Reports hangs = hung
  execute-Reports dies = died
