-- ===== src/Server/Repository.antt =====
-- repository.py: constants, records, and the statements that its transactions share.
-- `modify_task` is an UPDATE of the row with a given id.
pub mod Identities
pub mod Submit
pub mod Matching
pub mod Claim
pub mod Leases
pub mod Sweep
use model_courier.Prelude.{
  ℕ, ◌-◌, ◌*◌, min, String, Bool, true, false, Option, none, some, List, [], ◌∷◌, ◌++◌, map,
  get_elem?, contains, ◌==◌, ◌&&◌, ◌||◌, is_none, if◌then◌else◌,
}
use model_courier.Prelude.Tables.{find, modify, select_one}
use model_courier.Contracts.{TaskEnvelope, ProviderResult}
use model_courier.Server.Exec.{Exec, Result, ok, err, assertion, integrity}
use model_courier.Server.Db.{
  Db, OwnerRow, DeviceRow, TaskRow, ArtifactRow, TaskEvent, ErrorJson, Status, uploading, queued,
  leased, running, succeeded, failed, expired, canceled,
}

abbrev pub lease_seconds : ℕ
lease_seconds = 600

abbrev pub max_attempts : ℕ
max_attempts = 3

abbrev pub result_retention_seconds : ℕ
result_retention_seconds = 7 * 24 * 60 * 60

abbrev pub worker_online_seconds : ℕ
worker_online_seconds = 30

abbrev pub worker_stale_seconds : ℕ
worker_stale_seconds = 90

pub record TaskRecord : Type 0 where
  pub id : String
  pub owner_id : String
  pub device_id : String
  pub task_type : String
  pub status : Status
  pub request : TaskEnvelope
  pub expires_at : ℕ
  pub execution_deadline : ℕ
  pub attempt : ℕ
  pub next_attempt_at : ℕ
  pub result_available : Bool
  pub result_expires_at : Option ℕ
  pub error_json : Option ErrorJson
  pub result_json : Option ProviderResult

pub record Lease : Type 0 where
  pub task_id : String
  pub owner_id : String
  pub worker_id : String
  pub lease_generation : ℕ
  pub lease_token : String
  pub lease_until : ℕ
  pub capability_id : String
  pub request : Option TaskEnvelope

-- `(5, 30, 120)[min(max(attempt - 1, 0), 2)]`; the index is in range.
unfoldable pub backoff : ℕ → ℕ
backoff attempt = elim (get_elem? {A = ℕ} (5 ∷ 30 ∷ 120 ∷ []) (min (attempt - 1) 2)) [
  | none ↦ 0
  | some seconds ↦ seconds
]

abbrev pub row_to_task : TaskRow → TaskRecord
row_to_task row = record {
  id = row.id;
  owner_id = row.owner_id;
  device_id = row.device_id;
  task_type = row.task_type;
  status = row.status;
  request = row.request;
  expires_at = row.expires_at;
  execution_deadline = row.execution_deadline;
  attempt = row.attempt;
  next_attempt_at = row.next_attempt_at;
  result_available = row.result_available;
  result_expires_at = row.result_expires_at;
  error_json = row.error_json;
  result_json = row.result_json;
}

abbrev pub is_uploading : Status → Bool
is_uploading uploading = true
is_uploading _ = false

abbrev pub is_queued : Status → Bool
is_queued queued = true
is_queued _ = false

-- `status in ('leased', 'running')`
abbrev pub is_held : Status → Bool
is_held leased = true
is_held running = true
is_held _ = false

abbrev pub is_succeeded : Status → Bool
is_succeeded succeeded = true
is_succeeded _ = false

-- `status in ('succeeded', 'failed', 'expired', 'canceled')`
abbrev pub is_terminal : Status → Bool
is_terminal succeeded = true
is_terminal failed = true
is_terminal expired = true
is_terminal canceled = true
is_terminal _ = false

abbrev pub task_key : TaskRow → String
task_key row = row.id

abbrev pub find_task : String → Db → Option TaskRow
find_task task_id db = find task_key task_id db.tasks

abbrev pub modify_task : String → (TaskRow → TaskRow) → Db → Db
modify_task task_id f db = record db { tasks = modify task_key task_id f db.tasks }

-- The row that a transaction reads back before it commits.
unfoldable pub reselect : String → Db → Result TaskRecord
reselect task_id db = elim (find_task task_id db) [
  | none ↦ err assertion
  | some row ↦ ok (row_to_task row)
]

abbrev pub add_event : TaskEvent → Db → Db
add_event e db = record db { events = db.events ++ e ∷ [] }

abbrev pub has_owner : String → Db → Bool
has_owner owner_id db = contains (map (λ (o : OwnerRow). o.id) db.owners) owner_id

abbrev pub has_device : String → Db → Bool
has_device device_id db = contains (map (λ (d : DeviceRow). d.id) db.devices) device_id

abbrev pub same_key : String → String → String → TaskRow → Bool
same_key owner_id device_id key row =
    row.owner_id == owner_id && row.device_id == device_id && row.idempotency_key == key

-- INSERT INTO tasks, under the constraints of the schema.
unfoldable pub insert_task : TaskRow → Exec Db (Unit {0})
insert_task row db =
    if is_none (find_task row.id db)
      && is_none (select_one (same_key row.owner_id row.device_id row.idempotency_key) db.tasks)
      && has_owner row.owner_id db
      && has_device row.device_id db
    then (ok tt, record db { tasks = db.tasks ++ row ∷ [] })
    else (err integrity, db)

-- INSERT INTO artifacts: the id and the path are unique, and the task is there.
unfoldable pub insert_artifact : ArtifactRow → Exec Db (Unit {0})
insert_artifact row db =
    if contains (map (λ (a : ArtifactRow). a.id) db.artifacts) row.id
      || contains (map (λ (a : ArtifactRow). a.path) db.artifacts) row.path
      || is_none (find_task row.task_id db)
    then (err integrity, db)
    else (ok tt, record db { artifacts = db.artifacts ++ row ∷ [] })
