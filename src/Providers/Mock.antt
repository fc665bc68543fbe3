-- ===== src/Providers/Mock.antt =====
-- src/model_courier/providers/mock.py
use model_courier.Prelude.{String, Option, none, some, [], ◌∷◌, ◌==◌, ◌||◌, if◌then◌else◌}
use model_courier.Contracts.{CapabilityManifest, TaskEnvelope}
use model_courier.Worker.ProcessRunner.{ProviderError}
use model_courier.Agent.Json.{string, number, array, nil, Fields, end, field, get}
use model_courier.Agent.Http.{Outcome}
use model_courier.Providers.{refusal, or_default, result_with}

abbrev pub describe : CapabilityManifest
describe = record {
  capability_id = "mock:generic";
  task_type = "vision.detect.v1";
  provider = "mock";
  service_id = none;
  models = "mock-1" ∷ [];
  formats = "image/jpeg" ∷ "image/png" ∷ [];
  max_concurrency = 1;
}

-- The capability of `mock_audio_registration`.
abbrev pub audio_capability : CapabilityManifest
audio_capability = record describe {
  capability_id = "mock:audio";
  task_type = "audio.transcribe.v1";
  formats = "audio/wav" ∷ "audio/mpeg" ∷ [];
}

abbrev pub validate : TaskEnvelope → Option ProviderError
validate task =
    if task.task_type == "vision.detect.v1" || task.task_type == "audio.transcribe.v1"
    then none
    else some (refusal "unsupported_task" "mock provider cannot handle this task")

abbrev pub execute : (Fields → String) → (Fields → String) → Fields → TaskEnvelope → Outcome
execute dumps digest config task =
    if task.task_type == "audio.transcribe.v1"
    then result_with dumps digest "audio.transcribe.v1" (
        field "text" (or_default (get "text" config) (string "mock transcription"))
          (field "language" (string "und") (field "segments" (array nil) end)))
    else result_with dumps digest "vision.detect.v1" (
        field "width" (number "1")
          (field "height" (number "1") (field "detections" (array nil) end)))
