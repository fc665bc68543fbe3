-- ===== src/Server/Repository/Matching.antt =====
-- repository.py: `_matches`, which routes a task to a worker's capability.
use model_courier.Prelude.{
  String, Bool, true, false, Option, none, some, List, [], ◌∷◌, map, contains, is_subset, is_empty,
  not, ◌==◌, ◌&&◌, holds, if◌then◌else◌,
}
use model_courier.Contracts.{CapabilityManifest}
use model_courier.Server.Db.{TaskRow}

-- `requested and capability.field != requested`, for a field of text and one that may be None
abbrev pub refuses : Option String → String → Bool
refuses none field = false
refuses (some requested) field = not (requested == "") && not (field == requested)

abbrev pub refuses_service : Option String → Option String → Bool
refuses_service none field = false
refuses_service (some requested) field = not (requested == "") && not (holds field requested)

-- `requested_model and requested_model not in capability.models`
abbrev pub refuses_model : Option String → List String → Bool
refuses_model none models = false
refuses_model (some requested) models = not (requested == "") && not (contains models requested)

-- The body of the loop: a `continue` is false.
unfoldable pub accepts : TaskRow → CapabilityManifest → Bool
unfolding is_subset
accepts row capability =
    let requires = row.request.requires in
    let input_formats = map (λ a. a.mime) row.request.input_artifacts in
    if not (capability.task_type == row.task_type)
    then false
    else if refuses requires.provider capability.provider
    then false
    else if refuses_service requires.service_id capability.service_id
    then false
    else if refuses_model requires.model capability.models
    then false
    else if not (is_empty requires.formats) && not (is_subset requires.formats capability.formats)
    then false
    else if not (is_empty input_formats)
        && not (is_empty capability.formats)
        && not (is_subset input_formats capability.formats)
    then false
    else true

-- `_matches`: the first capability that serves the task.
unfoldable pub matches : TaskRow → List CapabilityManifest → Option CapabilityManifest
unfolding accepts
matches row [] = none
matches row (capability ∷ rest) =
    if accepts row capability then some capability else matches row rest
