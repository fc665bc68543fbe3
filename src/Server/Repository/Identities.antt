-- ===== src/Server/Repository/Identities.antt =====
-- repository.py: owners, devices and workers. The JSON text of a worker's capabilities is stored
-- here as the list that it stands for.
use model_courier.Prelude.{
  ℕ, ◌-◌, String, Bool, Option, none, some, List, [], ◌∷◌, ◌++◌, map, is_subset, is_none, leb, ltb,
  ◌==◌, ◌&&◌, ◌||◌, if◌then◌else◌,
}
use model_courier.Prelude.Tables.{select_one, update, delete}
use model_courier.Contracts.{CapabilityManifest}
use model_courier.Server.Exec.{Exec, Result, ok, err, not_found, integrity}
use model_courier.Server.Db.{Db, DeviceRow, WorkerRow, TaskRow}
use model_courier.Server.Repository.{has_owner, worker_online_seconds, worker_stale_seconds}

-- INSERT OR IGNORE
unfoldable pub ensure_owner : String → ℕ → Db → Db
ensure_owner owner_id now db =
    if has_owner owner_id db
    then db
    else record db { owners = db.owners ++ record { id = owner_id; created_at = now } ∷ [] }

-- INSERT OR REPLACE: the rows with the same id or token hash go, the new row comes, and then the
-- foreign keys into and out of the table have to hold.
unfoldable pub ensure_device : String → String → String → ℕ → Exec Db (Unit {0})
ensure_device owner_id device_id token_hash now db =
    let row : DeviceRow = record {
      id = device_id;
      owner_id = owner_id;
      token_hash = token_hash;
      revoked_at = none;
      created_at = now;
    } in
    let devices =
      delete (λ (d : DeviceRow). d.id == device_id || d.token_hash == token_hash) db.devices
      ++ row ∷ [] in
    if has_owner owner_id db
      && is_subset (map (λ (t : TaskRow). t.device_id) db.tasks)
          (map (λ (d : DeviceRow). d.id) devices)
    then (ok tt, record db { devices = devices })
    else (err integrity, db)

unfoldable pub ensure_worker :
    String → String → String → List CapabilityManifest → ℕ → Exec Db (Unit {0})
ensure_worker owner_id worker_id token_hash capabilities now db =
    let row : WorkerRow = record {
      id = worker_id;
      owner_id = owner_id;
      token_hash = token_hash;
      capabilities = capabilities;
      revoked_at = none;
      last_seen_at = some now;
      created_at = now;
    } in
    let workers =
      delete (λ (w : WorkerRow). w.id == worker_id || w.token_hash == token_hash) db.workers
      ++ row ∷ [] in
    if has_owner owner_id db then (ok tt, record db { workers = workers }) else (err integrity, db)

-- `WHERE id = ? AND revoked_at IS NULL`
abbrev pub is_enrolled : String → WorkerRow → Bool
is_enrolled worker_id w = w.id == worker_id && is_none w.revoked_at

unfoldable pub update_worker_capabilities :
    String → List CapabilityManifest → ℕ → Exec Db (Unit {0})
update_worker_capabilities worker_id capabilities now db =
    if is_none (select_one (is_enrolled worker_id) db.workers)
    then (err (not_found "worker not found"), db)
    else (
      ok tt,
      record db {
        workers =
            update (is_enrolled worker_id)
              (λ w. record w { capabilities = capabilities; last_seen_at = some now }) db.workers;
      },
    )

unfoldable pub worker_capabilities : String → Db → Result (List CapabilityManifest)
worker_capabilities worker_id db = elim (select_one (is_enrolled worker_id) db.workers) [
  | none ↦ err (not_found "worker not found")
  | some w ↦ ok w.capabilities
]

pub data Presence : Type 0 where
  online stale offline : Presence

-- `now - last_seen` stops at 0, as `max(0.0, ...)` does.
abbrev pub presence_at : ℕ → Presence
presence_at age =
    if leb age worker_online_seconds
    then online
    else if ltb age worker_stale_seconds
    then stale
    else offline

abbrev pub seen : Option WorkerRow → Option ℕ
seen none = none
seen (some w) = w.last_seen_at

unfoldable pub worker_presence : String → ℕ → Db → Result Presence
worker_presence worker_id now db = elim (seen (select_one (is_enrolled worker_id) db.workers)) [
  | none ↦ err (not_found "worker not found")
  | some last_seen ↦ ok (presence_at (now - last_seen))
]
