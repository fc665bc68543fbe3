-- ===== src/Server/Quotas.antt =====
-- quotas.py. `shutil.disk_usage(...).free` is the argument `free_bytes`.
pub mod Limits
pub mod Histories
use model_courier.Prelude.{
  ℕ, ◌+◌, ◌-◌, ◌*◌, ◌^◌, String, Bool, not, List, [], ◌∷◌, leb, ltb, ◌==◌, ◌&&◌, ◌||◌,
  if◌then◌else◌,
}
use model_courier.Prelude.Int.{ℤ, pos, negsuc}
use model_courier.Prelude.Tables.{count}
use model_courier.Server.Exec.{Result, ok, err, quota_exceeded}
use model_courier.Server.Db.{Db, TaskRow, ArtifactRow}
use model_courier.Server.Repository.{is_terminal}

abbrev pub max_device_active : ℕ
max_device_active = 10

abbrev pub max_instance_active : ℕ
max_instance_active = 100

abbrev pub max_artifact_bytes : ℕ
max_artifact_bytes = 10 * 1024 ^ 3

abbrev pub min_free_bytes : ℕ
min_free_bytes = 5 * 1024 ^ 3

pub record Reservation : Type 0 where
  pub owner_id : String
  pub device_id : String
  pub bytes_reserved : ℕ

-- `status NOT IN ('succeeded', 'failed', 'expired', 'canceled')`
abbrev pub is_active : TaskRow → Bool
is_active r = not (is_terminal r.status)

abbrev pub is_active_of : String → String → TaskRow → Bool
is_active_of owner_id device_id r =
    r.owner_id == owner_id && r.device_id == device_id && is_active r

-- `COALESCE(SUM(size_bytes), 0)`
unfoldable pub used_bytes : List ArtifactRow → ℕ
used_bytes [] = 0
used_bytes (a ∷ rest) = a.size_bytes + used_bytes rest

unfoldable pub reserve : ℕ → String → String → ℤ → Db → Result Reservation
reserve free_bytes owner_id device_id (negsuc n) db =
    err (quota_exceeded "reserved size cannot be negative")
reserve free_bytes owner_id device_id (pos bytes) db =
    if ltb free_bytes min_free_bytes || ltb (free_bytes - min_free_bytes) bytes
    then err (quota_exceeded "artifact disk reserve is exhausted")
    else if leb max_device_active (count (is_active_of owner_id device_id) db.tasks)
    then err (quota_exceeded "device active-task quota is exhausted")
    else if leb max_instance_active (count is_active db.tasks)
    then err (quota_exceeded "instance active-task quota is exhausted")
    else if ltb max_artifact_bytes (used_bytes db.artifacts + bytes)
    then err (quota_exceeded "artifact budget is exhausted")
    else ok (record { owner_id = owner_id; device_id = device_id; bytes_reserved = bytes })
