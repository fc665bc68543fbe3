-- ===== src/Server/Lifecycle/Rows.antt =====
-- What every move of a row keeps.
use model_courier.Prelude.{ℕ, ◌≤◌, ◌≡◌, true, arith}
use model_courier.Server.Db.{TaskRow}
use model_courier.Server.Repository.{is_terminal}
use model_courier.Server.Lifecycle.{
  Move, stays, expires, enqueues, grants, prolongs, retries, fails, publishes, requeues, exhausts,
  cancels, IsNew, IsSound,
}

-- Columns that no statement sets after the INSERT.
pub record SameRequest (x y : TaskRow) : Type 0 where
  pub id : y.id ≡ x.id
  pub owner_id : y.owner_id ≡ x.owner_id
  pub device_id : y.device_id ≡ x.device_id
  pub task_type : y.task_type ≡ x.task_type
  pub request : y.request ≡ x.request
  pub request_digest : y.request_digest ≡ x.request_digest
  pub idempotency_key : y.idempotency_key ≡ x.idempotency_key
  pub expires_at : y.expires_at ≡ x.expires_at
  pub created_at : y.created_at ≡ x.created_at

SameRequest-refl : (x : TaskRow) → SameRequest x x
SameRequest-refl x = ground arith

pub Move-SameRequest : {now : ℕ} (x y : TaskRow) → Move now x y → SameRequest x y
Move-SameRequest x y (stays e) = rw e (SameRequest-refl x)
Move-SameRequest x y (expires w t e) = rw e (ground arith)
Move-SameRequest x y (enqueues w t e) = rw e (ground arith)
Move-SameRequest x y (grants w h c q t u e) = rw e (ground arith)
Move-SameRequest x y (prolongs s l h e) = rw e (ground arith)
Move-SameRequest x y (retries r l a t e) = rw e (ground arith)
Move-SameRequest x y (fails r l e) = rw e (ground arith)
Move-SameRequest x y (publishes r l e) = rw e (ground arith)
Move-SameRequest x y (requeues l t a e) = rw e (ground arith)
Move-SameRequest x y (exhausts l e) = rw e (ground arith)
Move-SameRequest x y (cancels t e) = rw e (ground arith)

pub Move-IsSound : {now : ℕ} (x y : TaskRow) → Move now x y → IsSound x → IsSound y
Move-IsSound x y (stays e) v = rw e v
Move-IsSound x y (expires w t e) v = rw e (ground arith)
Move-IsSound x y (enqueues w t e) v = rw e (ground arith)
Move-IsSound x y (grants w h c q t u e) v = rw e (ground arith)
Move-IsSound x y (prolongs s l h e) v = rw e (ground arith)
Move-IsSound x y (retries r l a t e) v = rw e (ground arith)
Move-IsSound x y (fails r l e) v = rw e (ground arith)
Move-IsSound x y (publishes r l e) v = rw e (ground arith)
Move-IsSound x y (requeues l t a e) v = rw e (ground arith)
Move-IsSound x y (exhausts l e) v = rw e (ground arith)
Move-IsSound x y (cancels t e) v = rw e (ground arith)

pub IsNew-IsSound : {now : ℕ} (x : TaskRow) → IsNew now x → IsSound x
IsNew-IsSound x n = rw n.made (ground arith)

-- A terminal row stays as it is.
pub Move-terminal : {now : ℕ} (x y : TaskRow) → Move now x y → is_terminal x.status ≡ true → y ≡ x
Move-terminal x y (stays e) t = e
Move-terminal x y (expires w u e) t = ground arith
Move-terminal x y (enqueues w u e) t = ground arith
Move-terminal x y (grants w h c q u v e) t = ground arith
Move-terminal x y (prolongs s l h e) t = ground arith
Move-terminal x y (retries r l a u e) t = ground arith
Move-terminal x y (fails r l e) t = ground arith
Move-terminal x y (publishes r l e) t = ground arith
Move-terminal x y (requeues l u a e) t = ground arith
Move-terminal x y (exhausts l e) t = ground arith
Move-terminal x y (cancels u e) t = ground arith

-- The generation never falls.
pub Move-generation :
    {now : ℕ} (x y : TaskRow) → Move now x y → x.lease_generation ≤ y.lease_generation
Move-generation x y (stays e) = rw e (omega arith)
Move-generation x y (grants w h c q u v e) = rw e (omega arith)
Move-generation x y (expires w u e) = rw e (omega arith)
Move-generation x y (enqueues w u e) = rw e (omega arith)
Move-generation x y (prolongs s l h e) = rw e (omega arith)
Move-generation x y (retries r l a u e) = rw e (omega arith)
Move-generation x y (fails r l e) = rw e (omega arith)
Move-generation x y (publishes r l e) = rw e (omega arith)
Move-generation x y (requeues l u a e) = rw e (omega arith)
Move-generation x y (exhausts l e) = rw e (omega arith)
Move-generation x y (cancels u e) = rw e (omega arith)
