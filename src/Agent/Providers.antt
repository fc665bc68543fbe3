-- ===== src/Agent/Providers.antt =====
-- agent/providers.py: a stored binding as a provider. `http_config` is the validation of the HTTP
-- adapter's configuration, `is_file` what the file system says of a path.
use model_courier.Prelude.{
  ℕ, String, Bool, true, false, Option, none, some, List, [], ◌∷◌, not, ◌==◌, if◌then◌else◌,
}
use model_courier.Contracts.{TaskEnvelope, CapabilityManifest}
use model_courier.Contracts.Models.{validate_capability}
use model_courier.Worker.ProcessRunner.{ProviderError}
use model_courier.Server.Storage.{Bytes}
use model_courier.Agent.Json.{Value, string, array, object, Fields, end, field, get, texts_of}
use model_courier.Agent.Models.{Kind, python, http, managed_http, ModelBinding}
use model_courier.Agent.Http.{HttpAdapterConfig, HttpAnswer, Outcome, result, failure}
use model_courier.Agent.Http
use model_courier.Agent.Bridge.{BridgeResult, answered, refused, text_of}

abbrev pub provider_error : String → String → ProviderError
provider_error code message = record { code = code; message = message; retryable = false }

unfoldable pub default_formats : String → List String
default_formats task_type =
    if task_type == "vision.detect.v1"
    then "image/jpeg" ∷ "image/png" ∷ []
    else "audio/wav" ∷ "audio/mpeg" ∷ []

abbrev pub texts_at : String → Fields → Option (List String)
texts_at key config = elim (get key config) [ none ↦ none | some value ↦ texts_of value ]

abbrev pub formats_of : String → Option (List String) → List String
formats_of task_type none = default_formats task_type
formats_of task_type (some formats) = formats

-- The keyword arguments of `CapabilityManifest(...)`, and the defaults.
abbrev pub manifest_of : ModelBinding → CapabilityManifest
manifest_of b = record {
  capability_id = b.binding_id;
  task_type = b.task_type;
  provider = b.execution.adapter_id;
  service_id = some b.service_id;
  models = b.model_name ∷ [];
  formats = formats_of b.task_type (texts_at "formats" b.execution.config);
  max_concurrency = 1;
}

-- `none` is the ValidationError; `strip` is what pydantic strips off a text.
unfoldable pub describe : (String → String) → ModelBinding → Option CapabilityManifest
describe strip b = validate_capability strip (manifest_of b)

-- `config.get("arguments", [])` where the texts are asked for: a missing key is the empty list.
abbrev pub arguments_of : Option Value → Option (List String)
arguments_of none = some []
arguments_of (some value) = texts_of value

module _ (http_config : Fields → Option HttpAdapterConfig) (is_file : String → Bool) where
  abbrev pub validate_http : Option HttpAdapterConfig → Option ProviderError
  validate_http none = some (provider_error "invalid_configuration" "HTTP configuration is invalid")
  validate_http (some config) = none

  abbrev pub validate_arguments : Option (List String) → Option ProviderError
  validate_arguments none =
      some (provider_error "invalid_configuration" "Python arguments must be strings")
  validate_arguments (some arguments) = none

  abbrev pub validate_python : Option String → Fields → Option ProviderError
  validate_python none config =
      some (provider_error "executable_missing" "Python executable was not found")
  validate_python (some executable) config =
      if not (is_file executable)
      then some (provider_error "executable_missing" "Python executable was not found")
      else validate_arguments (arguments_of (get "arguments" config))

  abbrev pub validate_kind : Kind → Fields → Option ProviderError
  validate_kind http config = validate_http (http_config config)
  validate_kind python config = validate_python (text_of (get "executable" config)) config
  validate_kind managed_http config =
      some (provider_error "managed_http_pending" "managed HTTP is not available yet")

  -- `none` when it does not raise.
  unfoldable pub validate : ModelBinding → TaskEnvelope → Option ProviderError
  validate b task =
      if not (task.task_type == b.task_type)
      then some (provider_error "unsupported_task" "binding does not support this task type")
      else validate_kind b.execution.kind b.execution.config

-- `response.get("json", response.get("result"))`, if it is an object
abbrev pub object_of : Option Value → Option Fields
object_of (some (object fields)) = some fields
object_of _ = none

abbrev pub or_field : Option Value → Option Value → Option Value
or_field none later = later
or_field (some value) later = some value

abbrev pub response_payload : Fields → Option Fields
response_payload response = object_of (or_field (get "json" response) (get "result" response))

module _ (loads : Bytes → Option Value) (dumps digest : Fields → String) (show : ℕ → String)
    (options_of : TaskEnvelope → Value) where
  -- The request for the adapter's process.
  abbrev pub bridge_request : ModelBinding → TaskEnvelope → String → String → Fields
  bridge_request b task task_id input_path = field "request_id" (string task_id) (
      field "operation" (string "execute") (
        field "task_type" (string task.task_type) (
          field "model" (string b.model_name)
            (field "input_path" (string input_path) (field "options" (options_of task) end)))))

  abbrev pub payload_result : String → Option Fields → Outcome
  payload_result task_type none =
      failure (provider_error "invalid_result" "Python adapter must return a JSON object")
  payload_result task_type (some payload) =
      result (Http.result_of loads dumps digest show task_type payload)

  -- Only a timeout of the bridge may be tried again.
  abbrev pub bridge_outcome : String → BridgeResult → Outcome
  bridge_outcome task_type (refused e) =
      failure
        (record { code = e.code; message = e.message; retryable = e.code == "bridge_timeout" })
  bridge_outcome task_type (answered response) =
      payload_result task_type (response_payload response)

  -- `isinstance(arguments, list)` asks for no more than a list.
  abbrev pub is_list : Option Value → Bool
  is_list none = true
  is_list (some (array items)) = true
  is_list _ = false

  -- The run of `PythonBridge` for the executable is an argument, a function of the request.
  unfoldable pub execute_python :
      ModelBinding → TaskEnvelope → String → String → (String → Fields → BridgeResult) → Outcome
  execute_python b task task_id input_path bridge =
      elim (text_of (get "executable" b.execution.config)) [
        | none ↦
            failure
              (provider_error "invalid_configuration" "Python bridge configuration is invalid")
        | some executable ↦
            if not (is_list (get "arguments" b.execution.config))
            then failure
                (provider_error "invalid_configuration" "Python bridge configuration is invalid")
            else bridge_outcome task.task_type
                (bridge executable (bridge_request b task task_id input_path))
      ]

  -- The HTTP configuration has been validated; a configuration that is not valid raises a ValueError,
  -- the `none`.
  abbrev pub execute_http : Option HttpAdapterConfig → String → HttpAnswer → Option Outcome
  execute_http none task_type answer = none
  execute_http (some config) task_type answer =
      some (Http.execute loads dumps digest show config task_type answer)

  unfoldable pub execute :
      (Fields → Option HttpAdapterConfig)
      → ModelBinding
      → TaskEnvelope
      → String
      → List String
      → HttpAnswer
      → (String → Fields → BridgeResult)
      → Option Outcome
  execute http_config b task task_id [] answer bridge =
      some (failure (provider_error "input_missing" "task input is missing"))
  execute http_config b task task_id (path ∷ paths) answer bridge = elim b.execution.kind [
    | http ↦ execute_http (http_config b.execution.config) task.task_type answer
    | python ↦ some (execute_python b task task_id path bridge)
    | managed_http ↦
        some (failure (provider_error "managed_http_pending" "managed HTTP is not available yet"))
  ]
