-- ===== src/Server/Routes/Devices.antt =====
-- routes_devices.py. `digest` is `canonical_json_digest` on an envelope, and on the JSON that the
-- envelope was stored as; `hex_digest` is that of the file contents.
use Prim.Native.String.{◌++◌ as join}
use model_courier.Prelude.{
  ℕ, ◌+◌, String, Option, none, some, List, [], ◌∷◌, not, due, ◌||◌, if◌then◌else◌,
}
use model_courier.Prelude.Int.{pos}
use model_courier.Contracts.{ArtifactRef, TaskEnvelope, ProviderResult}
use model_courier.Server.Exec.{Error, Result, ok, err, artifact}
use model_courier.Server.Db.{Db}
use model_courier.Server.Repository.{TaskRecord, is_uploading, is_succeeded}
use model_courier.Server.Repository.Submit
use model_courier.Server.Repository.Submit.{create_uploading, finalize_and_enqueue}
use model_courier.Server.Repository.Sweep.{cancel}
use model_courier.Server.Tokens.{Principal}
use model_courier.Server.Quotas.{Reservation, reserve}
use model_courier.Server.Storage.{UploadHandle, Bytes, Files, Item, begin, write_stream}
use model_courier.Server.Routes.{
  AppState, Reply, answers, refuses, TaskView, map_repository_error, view, show_task, shown_in_try,
}

-- `sum(item.size_bytes or 0 for item in envelope.input_artifacts)`
unfoldable pub declared_size : List ArtifactRef → ℕ
declared_size [] = 0
declared_size (a ∷ rest) = elim a.size_bytes [ none ↦ 0 | some n ↦ n ] + declared_size rest

abbrev pub input_url : String → String
input_url task_id = join (join "/v1/tasks/" task_id) "/input"

abbrev pub show_created : Result TaskRecord → Reply TaskView
show_created (err e) = map_repository_error e
show_created (ok task) = show_task (some (input_url task.id)) (ok task)

-- A QuotaExceededError is answered by 429.
abbrev pub reserved :
    String → Principal → TaskEnvelope → String → ℕ → Result Reservation → Db → Reply TaskView × Db
reserved new_id p e request_digest now (err (Error.quota_exceeded detail)) db =
    (refuses 429 detail, db)
reserved new_id p e request_digest now (err other) db = (map_repository_error other, db)
reserved new_id p e request_digest now (ok r) db =
    let (made, after) = create_uploading new_id p.owner_id p.subject_id e request_digest now db in
    (show_created made, after)

module _ (digest : TaskEnvelope → String) where
  unfoldable pub create_task : ℕ → String → Principal → TaskEnvelope → ℕ → Db → Reply TaskView × Db
  create_task free_bytes new_id p e now db =
      reserved new_id p e (digest e) now
        (reserve free_bytes p.owner_id p.subject_id (pos (declared_size e.input_artifacts)) db) db

  module _ (strip : String → String) (hex_digest : Bytes → String) where
    -- The upload after the test of the status: an ArtifactError is answered by 413, a broken stream,
    -- a description that is not valid and the errors of the repository as the others are.
    abbrev pub finish_upload :
        String
        → String
        → TaskRecord
        → UploadHandle
        → ℕ
        → Result ArtifactRef × Files
        → Db
        → Reply TaskView × AppState
    finish_upload new_id task_id task handle now (err (artifact detail), files) db =
        (refuses 413 detail, record { db = db; files = files })
    finish_upload new_id task_id task handle now (err other, files) db =
        (map_repository_error other, record { db = db; files = files })
    finish_upload new_id task_id task handle now (ok a, files) db =
        let (made, after) =
          finalize_and_enqueue new_id task_id a (digest task.request) (some handle.path) now db in
        (show_task none made, record { db = after; files = files })

    abbrev pub begun :
        String
        → String
        → TaskRecord
        → List Item
        → ℕ
        → Result UploadHandle
        → AppState
        → Reply TaskView × AppState
    begun new_id task_id task items now (err (artifact detail)) s = (refuses 413 detail, s)
    begun new_id task_id task items now (err other) s = (map_repository_error other, s)
    begun new_id task_id task items now (ok handle) s =
        finish_upload new_id task_id task handle now
          (write_stream strip hex_digest handle items s.files) s.db

    abbrev pub receive_upload :
        String
        → String
        → String
        → String
        → String
        → ℕ
        → List Item
        → ℕ
        → Result TaskRecord
        → AppState
        → Reply TaskView × AppState
    receive_upload new_id artifact_id task_id name mime size items now (err e) s =
        (map_repository_error e, s)
    receive_upload new_id artifact_id task_id name mime size items now (ok task) s =
        if not (is_uploading task.status)
        then (refuses 409 "task is no longer accepting input", s)
        else begun new_id task_id task items now
            (begin artifact_id task_id "input" (pos size) mime name) s

    unfoldable pub upload_input :
        String
        → String
        → String
        → String
        → String
        → ℕ
        → List Item
        → Principal
        → ℕ
        → AppState
        → Reply TaskView × AppState
    upload_input new_id artifact_id task_id name mime size items p now s =
        receive_upload new_id artifact_id task_id name mime size items now
          (Submit.get_task p.owner_id task_id s.db) s

abbrev pub show_submitted : Result TaskRecord → Reply TaskView
show_submitted (err e) = map_repository_error e
show_submitted (ok task) =
    if is_uploading task.status
    then refuses 409 "input has not been uploaded"
    else show_task none (ok task)

unfoldable pub submit_task : String → Principal → Db → Reply TaskView
submit_task task_id p db = show_submitted (Submit.get_task p.owner_id task_id db)

-- Here the view is made inside the `try`.
abbrev pub show_in_try : Result TaskRecord → Reply TaskView
show_in_try (err e) = map_repository_error e
show_in_try (ok task) = shown_in_try (view task none)

unfoldable pub get_task : String → Principal → Db → Reply TaskView
get_task task_id p db = show_in_try (Submit.get_task p.owner_id task_id db)

-- The body is the stored JSON, or `{}`, the `none` here.
abbrev pub show_result : ℕ → Result TaskRecord → Reply (Option ProviderResult)
show_result now (err e) = map_repository_error e
show_result now (ok task) =
    if not (is_succeeded task.status) || not task.result_available
    then (if is_succeeded task.status
        then refuses 410 "result has expired"
        else refuses 409 "result is not ready")
    else if due task.result_expires_at now
    then refuses 410 "result has expired"
    else answers task.result_json

unfoldable pub get_result : String → Principal → ℕ → Db → Reply (Option ProviderResult)
get_result task_id p now db = show_result now (Submit.get_task p.owner_id task_id db)

unfoldable pub cancel_task : String → Principal → ℕ → Db → Reply TaskView × Db
cancel_task task_id p now db =
    let (made, after) = cancel p.owner_id task_id now db in (show_task none made, after)
