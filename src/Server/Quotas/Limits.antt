-- ===== src/Server/Quotas/Limits.antt =====
-- What a reservation guarantees, and what it asks for.
use model_courier.Prelude.{ℕ, ◌+◌, ◌≤◌, ◌<◌, ◌≡◌, String, arith}
use std.Logic.{◌↔◌}
use model_courier.Prelude.Int.{pos}
use model_courier.Prelude.Tables.{count}
use model_courier.Server.Exec.{ok}
use model_courier.Server.Db.{Db}
use model_courier.Server.Quotas.{
  Reservation, reserve, is_active, is_active_of, used_bytes, max_device_active, max_instance_active,
  max_artifact_bytes, min_free_bytes,
}

-- What the disk and the database have room for.
pub record HasRoom (free_bytes : ℕ) (owner_id device_id : String) (bytes : ℕ) (db : Db)
    : Type 0 where
  pub disk : bytes + min_free_bytes ≤ free_bytes
  pub device : count (is_active_of owner_id device_id) db.tasks < max_device_active
  pub instance_ : count is_active db.tasks < max_instance_active
  pub budget : used_bytes db.artifacts + bytes ≤ max_artifact_bytes

pub reserve-HasRoom_then :
    (free_bytes : ℕ) (owner_id device_id : String) (bytes : ℕ) (db : Db) (r : Reservation)
    → reserve free_bytes owner_id device_id (pos bytes) db ≡ ok r
    → HasRoom free_bytes owner_id device_id bytes db
unfolding reserve
reserve-HasRoom_then free_bytes owner_id device_id bytes db r e = ground arith

pub HasRoom-reserve :
    (free_bytes : ℕ) (owner_id device_id : String) (bytes : ℕ) (db : Db)
    → HasRoom free_bytes owner_id device_id bytes db
    → reserve free_bytes owner_id device_id (pos bytes) db
      ≡ ok (record { owner_id = owner_id; device_id = device_id; bytes_reserved = bytes })
unfolding reserve
HasRoom-reserve free_bytes owner_id device_id bytes db h =
    let disk = h.disk in
    let device = h.device in let instance_ = h.instance_ in let budget = h.budget in ground arith

-- A reservation of a size that is not negative is made exactly when there is room for it: on the
-- disk beside the reserve, in the quotas on active tasks of the device and of the instance, and in
-- the artifact budget.
pub reserve-HasRoom :
    (free_bytes : ℕ) (owner_id device_id : String) (bytes : ℕ) (db : Db)
    → (reserve free_bytes owner_id device_id (pos bytes) db
        ≡ ok (record { owner_id = owner_id; device_id = device_id; bytes_reserved = bytes }))
      ↔ HasRoom free_bytes owner_id device_id bytes db
reserve-HasRoom free_bytes owner_id device_id bytes db = (
  reserve-HasRoom_then free_bytes owner_id device_id bytes db _,
  HasRoom-reserve free_bytes owner_id device_id bytes db,
)
