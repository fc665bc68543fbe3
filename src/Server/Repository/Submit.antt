-- ===== src/Server/Repository/Submit.antt =====
-- repository.py: tasks and their inputs as devices submit them and read them.
-- `uuid.uuid4().hex` is the argument `new_id`.
use model_courier.Prelude.{
  ℕ, ◌+◌, String, Bool, true, false, Option, none, some, List, [], ◌∷◌, map, not, leb, ◌==◌, ◌&&◌,
  if◌then◌else◌,
}
use model_courier.Prelude.Tables.{select, select_one, delete, order_by}
use model_courier.Contracts.{ArtifactRef, TaskEnvelope}
use model_courier.Server.Exec.{
  Exec, Result, ok, err, not_found, conflict, pure, raise, lift, or_raise, raise_if, modify_state,
  ◌>>=◌, ◌>>◌,
}
use model_courier.Server.Db.{
  Db, TaskRow, ArtifactRow, ArtifactKind, uploading, queued, expired, input, result,
}
use model_courier.Server.Repository.{
  TaskRecord, row_to_task, is_uploading, is_succeeded, same_key, find_task, modify_task, reselect,
  add_event, insert_task, insert_artifact,
}

unfoldable pub get_task : String → String → Db → Result TaskRecord
get_task owner_id task_id db =
    elim (select_one (λ (r : TaskRow). r.id == task_id && r.owner_id == owner_id) db.tasks) [
      | none ↦ err (not_found "task not found")
      | some row ↦ ok (row_to_task row)
    ]

abbrev pub is_input : ArtifactKind → Bool
is_input input = true
is_input result = false

abbrev pub is_input_of : String → ArtifactRow → Bool
is_input_of task_id a = a.task_id == task_id && is_input a.kind

unfoldable pub input_artifact_path : String → String → Db → Result String
input_artifact_path owner_id task_id db =
    elim (select_one (λ (r : TaskRow). r.id == task_id && r.owner_id == owner_id) db.tasks) [
      | none ↦ err (not_found "input artifact not found")
      | some _ ↦ elim (order_by (λ a. a.created_at) (select (is_input_of task_id) db.artifacts)) [
        | [] ↦ err (not_found "input artifact not found")
        | a ∷ _ ↦ ok a.path
      ]
    ]

-- The row that an upload starts with.
abbrev pub uploading_row : String → String → String → TaskEnvelope → String → ℕ → TaskRow
uploading_row new_id owner_id device_id envelope request_digest now = record {
  id = new_id;
  owner_id = owner_id;
  device_id = device_id;
  task_type = envelope.task_type;
  protocol_version = envelope.protocol_version;
  request = envelope;
  request_digest = request_digest;
  idempotency_key = envelope.idempotency_key;
  requested_provider = envelope.requires.provider;
  requested_model = envelope.requires.model;
  status = uploading;
  expires_at = now + envelope.ttl_seconds;
  execution_deadline = now + envelope.ttl_seconds;
  attempt = 0;
  next_attempt_at = now;
  lease_owner = none;
  lease_generation = 0;
  lease_token_hash = none;
  lease_until = none;
  bound_capability_id = none;
  error_json = none;
  result_json = none;
  result_available = false;
  result_expires_at = none;
  created_at = now;
  updated_at = now;
}

-- The transaction after the SELECT on the idempotency key.
unfoldable pub create_or_reuse : String → TaskRow → Option TaskRow → Exec Db TaskRecord
create_or_reuse request_digest row (some existing) = do
  raise_if (not (existing.request_digest == request_digest))
      (conflict "idempotency key was used with a different request")
  pure (row_to_task existing)
create_or_reuse request_digest row none = do
  insert_task row
  modify_state (
      add_event (record {
        task_id = row.id;
        event_type = "created";
        details = none;
        created_at = row.created_at;
      }))
  lift (reselect row.id)

unfoldable pub create_uploading :
    String → String → String → TaskEnvelope → String → ℕ → Exec Db TaskRecord
unfolding create_or_reuse
create_uploading new_id owner_id device_id envelope request_digest now db =
    create_or_reuse request_digest
      (uploading_row new_id owner_id device_id envelope request_digest now)
      (select_one (same_key owner_id device_id envelope.idempotency_key) db.tasks) db

abbrev pub expire : ℕ → TaskRow → TaskRow
expire now row = record row { status = expired; updated_at = now }

abbrev pub enqueue : ℕ → TaskRow → TaskRow
enqueue now row = record row { status = queued; updated_at = now }

-- `a or b` on texts: None and the empty text are passed over.
abbrev pub or_else : Option String → String → String
or_else none other = other
or_else (some text) other = if text == "" then other else text

-- The size and the digest, which an input must have.
abbrev pub measured : ArtifactRef → Result (ℕ × String)
measured a = elim a.size_bytes [
  | none ↦ err (conflict "input artifact must include size_bytes and sha256")
  | some size ↦ elim a.sha256 [
    | none ↦ err (conflict "input artifact must include size_bytes and sha256")
    | some digest ↦ ok (size, digest)
  ]
]

abbrev pub input_row :
    String → String → TaskRow → ArtifactRef → ℕ × String → Option String → ℕ → ArtifactRow
input_row new_id task_id row a (size, digest) artifact_path now =
    let artifact_id = or_else a.artifact_id new_id in
    record {
      id = artifact_id;
      task_id = task_id;
      kind = input;
      name = a.name;
      mime = a.mime;
      size_bytes = size;
      sha256 = digest;
      path = or_else artifact_path (or_else a.artifact_id artifact_id);
      published = true;
      expires_at = row.expires_at;
      created_at = now;
    }

-- The transaction on the row that was found. An expiry is committed before the raise.
unfoldable pub finalize_row :
    String
    → String
    → ArtifactRef
    → ℕ × String
    → String
    → Option String
    → ℕ
    → TaskRow
    → Exec Db TaskRecord
finalize_row new_id task_id a size request_digest artifact_path now row =
    if not (row.request_digest == request_digest)
    then raise (conflict "request digest does not match task")
    else if not (is_uploading row.status)
    then pure (row_to_task row)
    else if leb row.expires_at now
    then (do modify_state (modify_task task_id (expire now)); raise (conflict "task has expired"))
    else do
      insert_artifact (input_row new_id task_id row a size artifact_path now)
      modify_state (modify_task task_id (λ r. if is_uploading r.status then enqueue now r else r))
      modify_state (
          add_event
            (record { task_id = task_id; event_type = "queued"; details = none; created_at = now }))
      lift (reselect task_id)

unfoldable pub finalize_and_enqueue :
    String → String → ArtifactRef → String → Option String → ℕ → Exec Db TaskRecord
unfolding finalize_row
finalize_and_enqueue new_id task_id a request_digest artifact_path now = do
  size ← lift (λ _. measured a)
  row ← lift (λ db. or_raise (find_task task_id db) (not_found "task not found"))
  finalize_row new_id task_id a size request_digest artifact_path now row

-- The rows of a successful task's inputs go; their paths come back.
unfoldable pub remove_input_artifacts : String → String → Exec Db (List String)
remove_input_artifacts owner_id task_id = do
  task ← lift (get_task owner_id task_id)
  raise_if (not (is_succeeded task.status))
      (conflict "only successful tasks can release input artifacts")
  paths ← lift (λ db. ok (map (λ a. a.path) (select (is_input_of task_id) db.artifacts)))
  modify_state (λ db. record db { artifacts = delete (is_input_of task_id) db.artifacts })
  pure paths
