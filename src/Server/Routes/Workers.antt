-- ===== src/Server/Routes/Workers.antt =====
-- routes_workers.py. `sha256` is SHA-256 of a text, and `resolve` is what `Path.resolve` makes of a
-- path below the root of the artifacts: a path of a file below it, or nothing when it leads outside.
use model_courier.Prelude.{
  ℕ, String, Bool, Option, none, some, List, [], ◌∷◌, leb, ◌&&◌, if◌then◌else◌,
}
use model_courier.Contracts.{CapabilityManifest, ErrorEnvelope, ProviderResult}
use model_courier.Contracts.Checks.{is_within}
use model_courier.Server.Exec.{Exec, Result, ok, err}
use model_courier.Server.Db.{Db, Status}
use model_courier.Server.Repository.{TaskRecord, Lease}
use model_courier.Server.Repository.Identities.{update_worker_capabilities, worker_capabilities}
use model_courier.Server.Repository.Claim.{claim_next}
use model_courier.Server.Repository.Leases
use model_courier.Server.Repository.Submit.{input_artifact_path, remove_input_artifacts}
use model_courier.Server.Tokens.{Principal}
use model_courier.Server.Storage.{Bytes, Files, unlink}
use model_courier.Server.Routes.{
  AppState, Reply, answers, refuses, map_repository_error, server_error,
}

pub record LeaseRequest : Type 0 where
  pub lease_generation : ℕ
  pub lease_token : String

abbrev pub is_lease_request : LeaseRequest → Bool
is_lease_request r = leb 1 r.lease_generation && is_within 16 256 r.lease_token

abbrev pub lease_from_request : LeaseRequest → Principal → String → Lease
lease_from_request request p task_id = record {
  task_id = task_id;
  owner_id = p.owner_id;
  worker_id = p.subject_id;
  lease_generation = request.lease_generation;
  lease_token = request.lease_token;
  lease_until = 0;
  capability_id = "";
  request = none;
}

-- The body of an answer about a task: its status, and its attempt where the code sends it.
pub record Progress : Type 0 where
  pub task_id : String
  pub status : Status
  pub attempt : ℕ

abbrev pub show_progress : Result TaskRecord → Reply Progress
show_progress (err e) = map_repository_error e
show_progress (ok task) =
    answers (record { task_id = task.id; status = task.status; attempt = task.attempt })

abbrev pub reply_of : Result (Unit {0}) → List CapabilityManifest → Reply (List CapabilityManifest)
reply_of (err e) capabilities = map_repository_error e
reply_of (ok _) capabilities = answers capabilities

unfoldable pub register_worker :
    List CapabilityManifest → Principal → ℕ → Db → Reply (List CapabilityManifest) × Db
register_worker capabilities p now db =
    let (made, after) = update_worker_capabilities p.subject_id capabilities now db in
    (reply_of made capabilities, after)

module _ (resolve : String → Option String) where
  abbrev pub stored_at : Option String → Files → Option Bytes
  stored_at none files = none
  stored_at (some path) files = files path

  abbrev pub send_file : Option Bytes → Reply Bytes
  send_file none = refuses 404 "input artifact unavailable"
  send_file (some content) = answers content

  abbrev pub download : Result String → Files → Reply Bytes
  download (err e) files = map_repository_error e
  download (ok relative) files = send_file (stored_at (resolve relative) files)

  unfoldable pub download_input : String → Principal → AppState → Reply Bytes
  download_input task_id p s = download (input_artifact_path p.owner_id task_id s.db) s.files

  -- `remove_relative`
  abbrev pub remove_resolved : Option String → Files → Files
  remove_resolved none files = files
  remove_resolved (some path) files = unlink path files

  unfoldable pub remove_all : List String → Files → Files
  remove_all [] files = files
  remove_all (path ∷ paths) files = remove_all paths (remove_resolved (resolve path) files)

module _ (sha256 : String → String) where
  -- One round of the loop: the claim under the capabilities on record.
  abbrev pub poll_once :
      String → String → ℕ → Result (List CapabilityManifest) → Exec Db (Option Lease)
  poll_once worker_id token now (err e) db = (err e, db)
  poll_once worker_id token now (ok capabilities) db =
      claim_next sha256 worker_id capabilities token now db

  unfoldable pub poll_round : String → ℕ × String → Exec Db (Option Lease)
  poll_round worker_id (now, token) db =
      poll_once worker_id token now (worker_capabilities worker_id db) db

  -- The test after a round: an error or a lease is the answer, and no lease goes on.
  abbrev pub polled : Result (Option Lease) → Reply (Option Lease) → Reply (Option Lease)
  polled (err e) later = map_repository_error e
  polled (ok none) later = later
  polled (ok (some lease)) later = answers (some lease)

  abbrev pub db_after : Result (Option Lease) → Db → Db → Db
  db_after (ok none) now later = later
  db_after _ now later = now

  -- The time of each round and the token it would grant; after the last round the deadline has
  -- passed. The answer without a lease is the status 204.
  unfoldable pub poll_worker :
      Principal → ℕ × String → List (ℕ × String) → Db → Reply (Option Lease) × Db
  poll_worker p round [] db =
      let (claimed, after) = poll_round p.subject_id round db in
      (polled claimed (answers none), after)
  poll_worker p round (next ∷ rounds) db =
      let (claimed, after) = poll_round p.subject_id round db in
      let later = poll_worker p next rounds after in
      (polled claimed later.0, db_after claimed after later.1)

  unfoldable pub start_worker_task :
      String → LeaseRequest → Principal → ℕ → Db → Reply Progress × Db
  start_worker_task task_id request p now db =
      let (made, after) = Leases.start sha256 (lease_from_request request p task_id) now db in
      (show_progress made, after)

  unfoldable pub heartbeat_worker_task :
      String → LeaseRequest → Principal → ℕ → Db → Reply Progress × Db
  heartbeat_worker_task task_id request p now db =
      let (made, after) = Leases.heartbeat sha256 (lease_from_request request p task_id) now db in
      (show_progress made, after)

  unfoldable pub fail_worker_task :
      String → LeaseRequest → ErrorEnvelope → Principal → ℕ → Db → Reply Progress × Db
  fail_worker_task task_id request error p now db =
      let (made, after) =
        Leases.fail sha256 (lease_from_request request p task_id) error error.retryable now db in
      (show_progress made, after)

  module _ (resolve : String → Option String) where
    -- After the rows of the inputs are gone, so are their files.
    abbrev pub release : TaskRecord → Files → Result (List String) × Db → Reply Progress × AppState
    release task files (err e, db) = (map_repository_error e, record { db = db; files = files })
    release task files (ok paths, db) =
        (show_progress (ok task), record { db = db; files = remove_all resolve paths files })

    abbrev pub published :
        String → String → Files → Result TaskRecord × Db → Reply Progress × AppState
    published owner_id task_id files (err e, db) =
        (map_repository_error e, record { db = db; files = files })
    published owner_id task_id files (ok task, db) =
        release task files (remove_input_artifacts owner_id task_id db)

    -- The lease comes in the query, and is validated in the handler, outside its `try`.
    unfoldable pub publish_worker_result :
        String
        → ProviderResult
        → LeaseRequest
        → Principal
        → ℕ
        → AppState
        → Reply Progress × AppState
    publish_worker_result task_id result request p now s =
        if is_lease_request request
        then published p.owner_id task_id s.files
            (Leases.publish_result sha256 (lease_from_request request p task_id) result now s.db)
        else (server_error, s)
