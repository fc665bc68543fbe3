-- ===== src/Agent/Api/Running.antt =====
-- agent/api.py: the run of a binding inside `_run_verification`, and its task.
use Prim.Native.String.{◌++◌ as join}
use model_courier.Prelude.{ℕ, String, Bool, Option, none, some, [], ◌∷◌}
use model_courier.Contracts.{TaskEnvelope}
use model_courier.Worker.ProcessRunner.{ProviderError}
use model_courier.Server.Storage.{Bytes}
use model_courier.Agent.Json.{Value, Fields}
use model_courier.Agent.Models.{python, http, managed_http, ModelBinding}
use model_courier.Agent.Http.{HttpAdapterConfig, HttpAnswer}
use model_courier.Agent.Bridge.{BridgeResult}
use model_courier.Agent.Providers
use model_courier.Agent.Api.{Ran, ran_into, failed_inference, ran_of}

-- `_verification_task`, for the content type before its first semicolon and a fresh token.
abbrev pub verification_task : ModelBinding → String → ℕ → String → TaskEnvelope
verification_task b mime size_bytes token = record {
  protocol_version = "1";
  task_type = b.task_type;
  input_artifacts =
      record {
        artifact_id = none;
        name = "verification-input";
        mime = mime;
        size_bytes = some size_bytes;
        sha256 = none;
      }
      ∷ [];
  options = "{}";
  requires = record { provider = none; model = none; service_id = some b.service_id; formats = [] };
  idempotency_key = join (join (join "local-verify:" b.binding_id) ":") token;
  ttl_seconds = 86400;
}

-- The run itself: the provider of a Python binding, or the adapter of an HTTP one.
module _ (loads : Bytes → Option Value) (dumps digest : Fields → String) (show : ℕ → String)
    (options_of : TaskEnvelope → Value) (http_config : Fields → Option HttpAdapterConfig)
    (is_file : String → Bool) where
  abbrev pub run_python :
      ModelBinding
      → TaskEnvelope
      → String
      → (String → Fields → BridgeResult)
      → Option ProviderError
      → Ran
  run_python b task path bridge (some e) = failed_inference e
  run_python b task path bridge none = ran_of (
      some (
        Providers.execute_python loads dumps digest show options_of b task task.idempotency_key path
          bridge))

  abbrev pub run_http : String → HttpAnswer → Option HttpAdapterConfig → Ran
  run_http task_type answer config =
      ran_of (Providers.execute_http loads dumps digest show options_of config task_type answer)

  unfoldable pub run_verification :
      ModelBinding → TaskEnvelope → String → HttpAnswer → (String → Fields → BridgeResult) → Ran
  run_verification b task path answer bridge = elim b.execution.kind [
    | python ↦ run_python b task path bridge (Providers.validate http_config is_file b task)
    | http ↦ run_http task.task_type answer (http_config b.execution.config)
    | managed_http ↦
        ran_into "startup" "managed_http_pending" "managed HTTP verification is not available yet"
  ]
