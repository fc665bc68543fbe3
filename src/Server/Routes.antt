-- ===== src/Server/Routes.antt =====
-- dependencies.py, schemas.py and the parts that routes_devices.py and routes_workers.py share: the
-- state of the application, the answers, and the view of a task. A principal is an argument
-- of the handlers; Bearer makes it.
pub mod Bearer
pub mod Bodies
pub mod Devices
pub mod Workers
pub mod Exhausted
pub mod Releasing
pub mod Delivering
pub mod Foreign
use model_courier.Prelude.{ℕ, ◌+◌, String, Bool, true, false, Option, none, some, List, [], ◌∷◌}
use model_courier.Contracts.{ErrorEnvelope}
use model_courier.Server.Exec.{
  Error, Result, ok, err, not_found, conflict, lease_conflict, authentication, quota_exceeded,
  artifact,
}
use model_courier.Server.Db.{Db, Status, ErrorJson, envelope, code_only}
use model_courier.Server.Repository.{TaskRecord}
use model_courier.Server.Storage.{Files}

pub record AppState : Type 0 where
  pub db : Db
  pub files : Files

-- An answer with its body, or an HTTPException with its status and detail.
pub data Reply {ℓ} (A : Type ℓ) : Type ℓ where
  answers : A → Reply A
  refuses : ℕ → String → Reply A

-- `map_repository_error`: all other exceptions are internal.
unfoldable pub map_repository_error {ℓ} : {A : Type ℓ} → Error → Reply A
map_repository_error (not_found detail) = refuses 404 detail
map_repository_error (lease_conflict detail) = refuses 409 detail
map_repository_error (conflict detail) = refuses 409 detail
map_repository_error _ = refuses 500 "internal repository error"

-- An exception that no handler catches.
abbrev pub server_error {ℓ} : {A : Type ℓ} → Reply A
server_error = refuses 500 "Internal Server Error"

pub record TaskView : Type 0 where
  pub task_id : String
  pub status : Status
  pub task_type : String
  pub expires_at : ℕ
  pub attempt : ℕ
  pub result_available : Bool
  pub result_expires_at : Option ℕ
  pub upload_url : Option String
  pub error : Option ErrorEnvelope

-- `ErrorEnvelope.model_validate_json(task.error_json) if task.error_json else None`: an object that
-- lacks the required fields `message` and `request_id` is a ValidationError, the outer `none`.
unfoldable pub validate_error : Option ErrorJson → Option (Option ErrorEnvelope)
validate_error none = some none
validate_error (some (envelope e)) = some (some e)
validate_error (some (code_only code)) = none

-- `_view`; `none` is its ValidationError.
unfoldable pub view : TaskRecord → Option String → Option TaskView
unfolding validate_error
view task upload_url = elim (validate_error task.error_json) [
  | none ↦ none
  | some error ↦ some (record {
    task_id = task.id;
    status = task.status;
    task_type = task.task_type;
    expires_at = task.expires_at;
    attempt = task.attempt;
    result_available = task.result_available;
    result_expires_at = task.result_expires_at;
    upload_url = upload_url;
    error = error;
  })
]

-- A view that is returned outside of any `try`, and one inside.
abbrev pub shown : Option TaskView → Reply TaskView
shown none = server_error
shown (some v) = answers v

abbrev pub shown_in_try : Option TaskView → Reply TaskView
shown_in_try none = refuses 500 "internal repository error"
shown_in_try (some v) = answers v

-- `task = state.repository.…` in a `try`, then `return _view(task, …)`.
abbrev pub show_task : Option String → Result TaskRecord → Reply TaskView
show_task upload_url (err e) = map_repository_error e
show_task upload_url (ok task) = shown (view task upload_url)
