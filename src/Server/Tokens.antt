-- ===== src/Server/Tokens.antt =====
-- auth.py: bearer tokens of devices and workers. `secrets.token_urlsafe(32)` is the argument `token`.
-- Connections commit each statement, so the owner that `issue_*` adds stays when the INSERT of the
-- subject is refused.
pub mod Laws
use model_courier.Prelude.{
  ℕ, String, Bool, true, false, Option, none, some, List, [], ◌∷◌, ◌++◌, not, is_none, ◌==◌, ◌&&◌,
  if◌then◌else◌,
}
use model_courier.Prelude.Tables.{select_one, find, modify, update}
use model_courier.Contracts.{CapabilityManifest}
use model_courier.Server.Exec.{Exec, Result, ok, err, integrity, authentication}
use model_courier.Server.Db.{Db, DeviceRow, WorkerRow}
use model_courier.Server.Repository.Identities.{ensure_owner}

pub data PrincipalKind : Type 0 where
  device worker : PrincipalKind

pub record Principal : Type 0 where
  pub kind : PrincipalKind
  pub subject_id : String
  pub owner_id : String

abbrev pub device_key : DeviceRow → String
device_key d = d.id

abbrev pub worker_key : WorkerRow → String
worker_key w = w.id

-- A row of another subject has the token hash, which is UNIQUE.
abbrev pub takes_device_hash : String → String → DeviceRow → Bool
takes_device_hash device_id token_hash d = not (d.id == device_id) && d.token_hash == token_hash

abbrev pub takes_worker_hash : String → String → WorkerRow → Bool
takes_worker_hash worker_id token_hash w = not (w.id == worker_id) && w.token_hash == token_hash

-- INSERT ... ON CONFLICT(id) DO UPDATE
unfoldable pub upsert_device : DeviceRow → List DeviceRow → List DeviceRow
upsert_device row ds = elim (find device_key row.id ds) [
  | none ↦ ds ++ row ∷ []
  | some _ ↦
      modify device_key row.id
        (λ d. record d { owner_id = row.owner_id; token_hash = row.token_hash; revoked_at = none })
        ds
]

unfoldable pub upsert_worker : WorkerRow → List WorkerRow → List WorkerRow
upsert_worker row ws = elim (find worker_key row.id ws) [
  | none ↦ ws ++ row ∷ []
  | some _ ↦
      modify worker_key row.id
        (λ w. record w {
          owner_id = row.owner_id;
          token_hash = row.token_hash;
          capabilities = row.capabilities;
          revoked_at = none;
        })
        ws
]

-- `WHERE token_hash = ?`
abbrev pub device_with : String → DeviceRow → Bool
device_with token_hash d = d.token_hash == token_hash

abbrev pub worker_with : String → WorkerRow → Bool
worker_with token_hash w = w.token_hash == token_hash

abbrev pub admit_device : Option DeviceRow → Result Principal
admit_device none = err (authentication "invalid or revoked token")
admit_device (some d) =
    if is_none d.revoked_at
    then ok (record { kind = device; subject_id = d.id; owner_id = d.owner_id })
    else err (authentication "invalid or revoked token")

abbrev pub admit_worker : Option WorkerRow → Result Principal
admit_worker none = err (authentication "invalid or revoked token")
admit_worker (some w) =
    if is_none w.revoked_at
    then ok (record { kind = worker; subject_id = w.id; owner_id = w.owner_id })
    else err (authentication "invalid or revoked token")

module _ (sha256 : String → String) where
  unfoldable pub issue_device : String → String → String → ℕ → Exec Db String
  issue_device token owner_id device_id now db =
      let owned = ensure_owner owner_id now db in
      let row : DeviceRow = record {
        id = device_id;
        owner_id = owner_id;
        token_hash = sha256 token;
        revoked_at = none;
        created_at = now;
      } in
      if is_none (select_one (takes_device_hash device_id (sha256 token)) owned.devices)
      then (ok token, record owned { devices = upsert_device row owned.devices })
      else (err integrity, owned)

  unfoldable pub issue_worker :
      String → String → String → List CapabilityManifest → ℕ → Exec Db String
  issue_worker token owner_id worker_id capabilities now db =
      let owned = ensure_owner owner_id now db in
      let row : WorkerRow = record {
        id = worker_id;
        owner_id = owner_id;
        token_hash = sha256 token;
        capabilities = capabilities;
        revoked_at = none;
        last_seen_at = some now;
        created_at = now;
      } in
      if is_none (select_one (takes_worker_hash worker_id (sha256 token)) owned.workers)
      then (ok token, record owned { workers = upsert_worker row owned.workers })
      else (err integrity, owned)

  unfoldable pub authenticate : PrincipalKind → String → Db → Result Principal
  authenticate device token db = admit_device (select_one (device_with (sha256 token)) db.devices)
  authenticate worker token db = admit_worker (select_one (worker_with (sha256 token)) db.workers)

abbrev pub revoked_device : ℕ → DeviceRow → DeviceRow
revoked_device now d = record d { revoked_at = some now }

abbrev pub revoked_worker : ℕ → WorkerRow → WorkerRow
revoked_worker now w = record w { revoked_at = some now }

unfoldable pub revoke : PrincipalKind → String → ℕ → Db → Db
revoke device subject_id now db = record db {
  devices = update (λ d. d.id == subject_id) (revoked_device now) db.devices;
}
revoke worker subject_id now db = record db {
  workers = update (λ w. w.id == subject_id) (revoked_worker now) db.workers;
}
