-- ===== src/Providers.antt =====
-- The providers that come with the program: src/model_courier/providers/mock.py and the packages for
-- Ultralytics, Faster-Whisper and FunASR. What an inference library returns is an argument, and its
-- numbers are their texts; `dumps` and `digest` are those of a payload.
pub mod Mock
pub mod Ultralytics
pub mod FasterWhisper
pub mod FunAsr
pub mod Offered
pub mod Tests
use model_courier.Prelude.{String, Bool, true, false, Option, none, some, List, [], ◌∷◌}
use model_courier.Contracts.{ProviderResult}
use model_courier.Worker.ProcessRunner.{ProviderError}
use model_courier.Agent.Json.{Value, Fields}
use model_courier.Agent.Http.{Outcome, result, failure}

abbrev pub refusal : String → String → ProviderError
refusal code message = record { code = code; message = message; retryable = false }

-- `mapping.get(key, default)`
abbrev pub or_default : Option Value → Value → Value
or_default none default = default
or_default (some value) default = value

abbrev pub result_with : (Fields → String) → (Fields → String) → String → Fields → Outcome
result_with dumps digest schema_version payload = result (record {
  schema_version = schema_version;
  payload = dumps payload;
  artifacts = [];
  result_digest = digest payload;
})

-- The two tests at the head of `execute`: an input, and the library.
abbrev pub with_input :
    List String → Bool → String → String → (String → Option Outcome) → Option Outcome
with_input [] installed missing dependency run = some (failure (refusal "missing_input" missing))
with_input (path ∷ paths) installed missing dependency run = elim installed [
  | true ↦ run path
  | false ↦ some (failure (refusal "provider_dependency_missing" dependency))
]
