-- ===== src/Providers/FasterWhisper.antt =====
-- packages/provider-faster-whisper: model_courier_provider_faster_whisper/provider.py.
-- `strip` takes off the blanks of ASCII.
use Prim.Native.String.{◌++◌ as join}
use model_courier.Prelude.{String, Bool, Option, none, some, List, [], ◌∷◌, ◌==◌, if◌then◌else◌}
use model_courier.Contracts.{CapabilityManifest, TaskEnvelope}
use model_courier.Worker.ProcessRunner.{ProviderError}
use model_courier.Agent.Json.{string, number, array, object, Items, nil, cons, Fields, end, field}
use model_courier.Agent.Models.{value_of}
use model_courier.Agent.Http.{Outcome}
use model_courier.Prelude.Texts.{strip, is_blank}
use model_courier.Providers.{refusal, result_with, with_input}

abbrev pub describe : CapabilityManifest
describe = record {
  capability_id = "faster-whisper:default";
  task_type = "audio.transcribe.v1";
  provider = "faster-whisper";
  service_id = none;
  models = "tiny" ∷ "base" ∷ "small" ∷ "medium" ∷ "large-v3" ∷ [];
  formats = "audio/wav" ∷ "audio/mpeg" ∷ "audio/mp4" ∷ "audio/ogg" ∷ [];
  max_concurrency = 1;
}

abbrev pub validate : TaskEnvelope → Option ProviderError
validate task =
    if task.task_type == "audio.transcribe.v1"
    then none
    else some (refusal "unsupported_task" "Faster-Whisper only handles audio transcription")

pub record Segment : Type 0 where
  pub start : String
  pub end_time : String
  pub text : String

-- The list `normalized` of the loop.
unfoldable pub normalized : List Segment → Items
normalized [] = nil
normalized (s ∷ segments) =
    cons
      (object (
        field "start" (number s.start)
          (field "end" (number s.end_time) (field "text" (string (strip is_blank s.text)) end))))
      (normalized segments)

-- `" ".join(part for part in text_parts if part)`, with the text so far.
abbrev pub appended : String → String → String
appended text part =
    if part == "" then text else if text == "" then part else join (join text " ") part

unfoldable pub joined_text : String → List Segment → String
joined_text text [] = text
joined_text text (s ∷ segments) = joined_text (appended text (strip is_blank s.text)) segments

module _ (dumps digest : Fields → String) where
  abbrev pub result_for : List Segment × Option String → Outcome
  result_for (segments, language) = result_with dumps digest "audio.transcribe.v1" (
      field "text" (string (joined_text "" segments))
        (field "language" (value_of language) (field "segments" (array (normalized segments)) end)))

  abbrev pub execute : List String → Bool → (String → List Segment × Option String) → Option Outcome
  execute input_paths installed transcribe =
      with_input input_paths installed "audio input is missing"
        "install faster-whisper to use this Provider" (λ path. some (result_for (transcribe path)))
