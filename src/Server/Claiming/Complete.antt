-- ===== src/Server/Claiming/Complete.antt =====
-- About the SELECT of `claim_next` in repository.py: which tasks a claim looks at.
use model_courier.Prelude.{
  ℕ, ◌≤◌, ◌≡◌, subst, Bool, true, List, none, All, All-mono, length, length-take-le, arith, ltb,
  ◌&&◌,
}
use model_courier.Prelude.Tables.{select, order_by, count}
use model_courier.Prelude.Tables.Order.{
  IsOrdered, order_by-IsOrdered, take-IsOrdered, length-order_by, All-order_by, take_all,
  length-select, All-select,
}
use model_courier.Contracts.{CapabilityManifest}
use model_courier.Server.Db.{Db, TaskRow}
use model_courier.Server.Repository.Matching.{matches}
use model_courier.Server.Repository.Claim.{candidates, is_ready}
use model_courier.Server.Claiming.Routing.{Serves, Routes, nowhere, matches-Routes}

-- A task that a claim may grant.
abbrev pub is_eligible : ℕ → TaskRow → Bool
is_eligible now r = is_ready now r && ltb now r.expires_at

-- A claim looks at no more than 32 tasks, and at the oldest first.
pub candidates_bounds :
    (now : ℕ) (db : Db)
    → (length (candidates now db) ≤ 32) × IsOrdered (λ r. r.created_at) (candidates now db)
unfolding candidates
candidates_bounds now db = (length-take-le 32 _, take-IsOrdered _ 32 _ (order_by-IsOrdered _ _))

candidates_all :
    (now : ℕ) (db : Db)
    → count (is_eligible now) db.tasks ≤ 32
    → candidates now db ≡ order_by (λ r. r.created_at) (select (is_eligible now) db.tasks)
unfolding candidates
candidates_all now db h = take_all 32 _ (
    omega (
      arith,
      length-order_by (λ (r : TaskRow). r.created_at) (select (is_eligible now) db.tasks),
      length-select (is_eligible now) db.tasks,
      h,
    ))

pub none-Serves :
    (r : TaskRow) (cs : List CapabilityManifest) → matches r cs ≡ none → All (λ c. ¬ Serves r c) cs
none-Serves r cs e = go (subst (Routes r cs) e (matches-Routes r cs))
  where
    go : Routes r cs none → All (λ c. ¬ Serves r c) cs
    go (nowhere h) = h

-- If there are at most 32 eligible tasks and no candidate matches, no capability serves any of them.
pub passed_all :
    (cs : List CapabilityManifest) (now : ℕ) (db : Db)
    → count (is_eligible now) db.tasks ≤ 32
    → All (λ r. matches r cs ≡ none) (candidates now db)
    → All (λ r. is_eligible now r ≡ true → All (λ c. ¬ Serves r c) cs) db.tasks
passed_all cs now db few h = All-select _ (is_eligible now) db.tasks (
    All-order_by (λ (r : TaskRow). r.created_at) _ _
      (subst (All (λ r. All (λ c. ¬ Serves r c) cs)) (candidates_all now db few)
        (All-mono _ _ _ (λ r m. none-Serves r cs m) h)))
