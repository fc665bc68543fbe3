-- ===== src/Providers/FunAsr.antt =====
-- packages/provider-funasr: model_courier_provider_funasr/provider.py
use model_courier.Prelude.{String, Bool, Option, none, some, List, [], ◌∷◌, ◌==◌, if◌then◌else◌}
use model_courier.Contracts.{CapabilityManifest, TaskEnvelope}
use model_courier.Worker.ProcessRunner.{ProviderError}
use model_courier.Agent.Json.{Value, string, array, object, nil, cons, Fields, end, field, get}
use model_courier.Agent.Http.{Outcome, failure}
use model_courier.Providers.{refusal, or_default, result_with, with_input}

abbrev pub describe : CapabilityManifest
describe = record {
  capability_id = "funasr:default";
  task_type = "audio.transcribe.v1";
  provider = "funasr";
  service_id = none;
  models = "paraformer" ∷ "paraformer-zh" ∷ "SenseVoiceSmall" ∷ [];
  formats = "audio/wav" ∷ "audio/mpeg" ∷ "audio/mp4" ∷ "audio/ogg" ∷ [];
  max_concurrency = 1;
}

abbrev pub validate : TaskEnvelope → Option ProviderError
validate task =
    if task.task_type == "audio.transcribe.v1"
    then none
    else some (refusal "unsupported_task" "FunASR only handles audio transcription")

-- The first of a list that is not empty, or the value itself.
abbrev pub first_of : Value → Value
first_of (array (cons value rest)) = value
first_of value = value

module _ (dumps digest : Fields → String) (options : Fields) where
  abbrev pub result_for : Value → Outcome
  result_for (object first) = result_with dumps digest "audio.transcribe.v1" (
      field "text" (or_default (get "text" first) (string "")) (
        field "language" (or_default (get "language" options) (string "zh"))
          (field "segments" (or_default (get "segments" first) (array nil)) end)))
  result_for _ = failure (refusal "invalid_provider_output" "FunASR returned an unsupported result")

  abbrev pub execute : List String → Bool → (String → Value) → Option Outcome
  execute input_paths installed generate =
      with_input input_paths installed "audio input is missing"
        "install funasr to use this Provider" (λ path. some (result_for (first_of (generate path))))
