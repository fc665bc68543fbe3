-- ===== src/Providers/Ultralytics.antt =====
-- packages/provider-ultralytics: model_courier_provider_ultralytics/provider.py
use model_courier.Prelude.{ℕ, String, Bool, Option, none, some, List, [], ◌∷◌, ◌==◌, if◌then◌else◌}
use model_courier.Contracts.{CapabilityManifest, TaskEnvelope}
use model_courier.Worker.ProcessRunner.{ProviderError}
use model_courier.Agent.Json.{
  Value, string, number, array, object, Items, nil, cons, Fields, end, field,
}
use model_courier.Agent.Http.{Outcome, failure}
use model_courier.Providers.{refusal, result_with, with_input}

abbrev pub describe : CapabilityManifest
describe = record {
  capability_id = "ultralytics:default";
  task_type = "vision.detect.v1";
  provider = "ultralytics";
  service_id = none;
  models = "yolo11n" ∷ "yolo11s" ∷ "custom" ∷ [];
  formats = "image/jpeg" ∷ "image/png" ∷ "image/webp" ∷ [];
  max_concurrency = 1;
}

abbrev pub validate : TaskEnvelope → Option ProviderError
validate task =
    if task.task_type == "vision.detect.v1"
    then none
    else some (refusal "unsupported_task" "Ultralytics only handles object detection")

-- The three lists of a prediction's boxes, and `names.get`.
pub record Boxes : Type 0 where
  pub xyxy : List (List String)
  pub conf : List String
  pub cls : List ℕ

pub record Prediction : Type 0 where
  pub boxes : Option Boxes
  pub names : ℕ → Option String
  pub width : String
  pub height : String

unfoldable pub numbers : List String → Items
numbers [] = nil
numbers (n ∷ ns) = cons (number n) (numbers ns)

abbrev pub label_of : (ℕ → String) → Option String → ℕ → String
label_of show none class_index = show class_index
label_of show (some name) class_index = name

abbrev pub detection : (ℕ → String) → (ℕ → Option String) → List String → String → ℕ → Value
detection show names coordinates score class_index = object (
    field "label" (string (label_of show (names class_index) class_index))
      (field "confidence" (number score) (field "xyxy" (array (numbers coordinates)) end)))

abbrev pub prepend : Value → Option Items → Option Items
prepend value none = none
prepend value (some items) = some (cons value items)

-- The loop over `zip(..., strict=True)`; `none` is its ValueError.
unfoldable pub detections :
    (ℕ → String) → (ℕ → Option String) → List (List String) → List String → List ℕ → Option Items
detections show names [] [] [] = some nil
detections show names (c ∷ cs) (s ∷ ss) (k ∷ ks) =
    prepend (detection show names c s k) (detections show names cs ss ks)
detections show names _ _ _ = none

abbrev pub detections_of : (ℕ → String) → Prediction → Option Boxes → Option Items
detections_of show p none = some nil
detections_of show p (some b) = detections show p.names b.xyxy b.conf b.cls

module _ (dumps digest : Fields → String) (show : ℕ → String) where
  abbrev pub result_for : Prediction → Option Items → Option Outcome
  result_for p none = none
  result_for p (some items) = some (
      result_with dumps digest "vision.detect.v1" (
        field "width" (number p.width)
          (field "height" (number p.height) (field "detections" (array items) end))))

  abbrev pub first_result : List Prediction → Option Outcome
  first_result [] =
      some (failure (refusal "invalid_provider_output" "Ultralytics returned no prediction object"))
  first_result (p ∷ predictions) = result_for p (detections_of show p p.boxes)

  -- `none` is an exception that is no ProviderError.
  abbrev pub execute : List String → Bool → (String → List Prediction) → Option Outcome
  execute input_paths installed predict =
      with_input input_paths installed "image input is missing"
        "install ultralytics to use this Provider" (λ path. first_result (predict path))
