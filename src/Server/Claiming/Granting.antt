-- ===== src/Server/Claiming/Granting.antt =====
-- `claim_next` of repository.py against a description of what a claim grants.
use model_courier.Prelude.{
  ℕ, zero, suc, ◌+◌, ◌≤◌, ◌<◌, min, ◌≡◌, refl, sym, ap, ◌⊎◌, inl, inr, String, true, List, [], ◌∷◌,
  ◌++◌, Option, none, some, All, All-mono, take, arith, leb, subst, Bool-cases,
}
use model_courier.Prelude.Tables.{count}
use model_courier.Prelude.Tables.Laws.{IsKeyed, find-id, Pointwise, modify-Pointwise}
use model_courier.Prelude.Tables.Order.{IsOrdered, order_by-IsOrdered, All-order_by, All-select}
use model_courier.Contracts.{CapabilityManifest}
use model_courier.Server.Exec.{Result, ok}
use model_courier.Server.Db.{Db, TaskRow, queued, leased}
use model_courier.Server.Repository.{Lease, task_key, find_task}
use model_courier.Server.Repository.Matching.{matches}
use model_courier.Server.Repository.Claim.{claim_next, candidates}
use model_courier.Server.Claiming.{Picks, granted_row, Picks-found, claim_next-Claims}
use model_courier.Server.Claiming.Routing.{Serves, Routes, matches-Routes}
use model_courier.Server.Claiming.Complete.{is_eligible, none-Serves, passed_all}

-- The task waits for a worker, and neither its pause nor its time is in the way.
pub record Waits (now : ℕ) (r : TaskRow) : Type 0 where
  pub status : r.status ≡ queued
  pub pause : r.next_attempt_at ≤ now
  pub unexpired : now < r.expires_at

-- No capability serves the task.
abbrev pub Unserved : List CapabilityManifest → TaskRow → Type 0
Unserved cs r = All (λ c. ¬ Serves r c) cs

is_eligible-Waits : (now : ℕ) (r : TaskRow) → is_eligible now r ≡ true → Waits now r
is_eligible-Waits now r e = record {
  status = ground arith;
  pause = ground arith;
  unexpired = ground arith;
}

Waits-is_eligible : (now : ℕ) (r : TaskRow) → Waits now r → is_eligible now r ≡ true
Waits-is_eligible now r w =
    let s = w.status in let p = w.pause in let u = w.unexpired in ground arith

-- Of an ordered list, only what came before a picked element can be less.
older :
    (P : TaskRow → Type 0) (n : ℕ) (rows before rest : List TaskRow) (row : TaskRow)
    → IsOrdered (λ (r : TaskRow). r.created_at) rows
    → take n rows ≡ before ++ row ∷ rest
    → All P before
    → All (λ r. r.created_at < row.created_at → P r) rows
older P n [] before rest row o e h = tt
older P zero (x ∷ rows) [] rest row o e h = absurd (ground arith)
older P zero (x ∷ rows) (b ∷ before) rest row o e h = absurd (ground arith)
older P (suc n) (x ∷ rows) [] rest row o e h =
    let same : x ≡ row = ground arith in
    (
      λ l. absurd (let k = ap (λ (r : TaskRow). r.created_at) same in omega arith),
      All-mono _ _ rows
          (λ r le l. absurd (let k = ap (λ (z : TaskRow). z.created_at) same in omega arith)) o.0,
    )
older P (suc n) (x ∷ rows) (b ∷ before) rest row o e h =
    let same : x ≡ b = ground arith in
    (λ l. subst P (sym same) h.0, older P n rows before rest row o.1 (ground arith) h.1)

module _ (sha256 : String → String) (w : String) (cs : List CapabilityManifest) (token : String)
    (now : ℕ) (db : Db) where
  -- The task that a lease is on: one that waits and is served, while no older task that waits is; its
  -- columns before and after; and the lease.
  pub record Granted (lease : Lease) (after : Db) : Type 0 where
    pub row : TaskRow
    pub capability : CapabilityManifest
    pub found : find_task row.id db ≡ some row
    pub waited : Waits now row
    pub oldest : All (λ r. Waits now r → r.created_at < row.created_at → Unserved cs r) db.tasks
    pub routed : Routes row cs (some capability)
    pub lease_is : lease ≡ record {
      task_id = row.id;
      owner_id = row.owner_id;
      worker_id = w;
      lease_generation = row.lease_generation + 1;
      lease_token = token;
      lease_until = min (now + 600) row.execution_deadline;
      capability_id = capability.capability_id;
      request = some row.request;
    }
    pub stored :
        find_task row.id after
        ≡ some (record row {
          status = leased;
          attempt = row.attempt + 1;
          lease_owner = some w;
          lease_generation = row.lease_generation + 1;
          lease_token_hash = some (sha256 token);
          lease_until = some (min (now + 600) row.execution_deadline);
          bound_capability_id = some capability.capability_id;
          updated_at = now;
        })
    pub others : Pointwise (λ x y. (x.id ≡ row.id) ⊎ (y ≡ x)) db.tasks after.tasks

  abbrev pub Grants : Result (Option Lease) × Db → Type 0
  Grants o =
      ((o ≡ (ok none, db))
        × ((32 < count (is_eligible now) db.tasks)
            ⊎ All (λ r. Waits now r → Unserved cs r) db.tasks))
      ⊎ ((lease : Lease) × (after : Db) × (o ≡ (ok (some lease), after)) × Granted lease after)

  Picks-oldest :
      (before rest : List TaskRow) (row : TaskRow)
      → candidates now db ≡ before ++ row ∷ rest
      → All (λ r. matches r cs ≡ none) before
      → All (λ r. Waits now r → r.created_at < row.created_at → Unserved cs r) db.tasks
  unfolding candidates
  Picks-oldest before rest row e h =
      All-mono _ _ db.tasks (λ r f waits. f (Waits-is_eligible now r waits))
        (All-select _ (is_eligible now) db.tasks (
          All-order_by (λ (r : TaskRow). r.created_at) _ _
            (older (Unserved cs) 32 _ before rest row (order_by-IsOrdered _ _) e
              (All-mono _ _ before (λ r m. none-Serves r cs m) h))))

  Picks-Granted :
      (lease : Lease) (after : Db)
      → Picks sha256 w cs token now db (candidates now db) lease after
      → Granted lease after
  Picks-Granted lease after p = record {
    row = p.row;
    capability = p.capability;
    found = p.found;
    waited = is_eligible-Waits now p.row (let r = p.ready in let u = p.unexpired in ground arith);
    oldest = Picks-oldest p.before p.rest p.row p.split p.passed;
    routed = subst (Routes p.row cs) p.matched (matches-Routes p.row cs);
    lease_is = p.lease_is;
    stored =
        subst
          (λ (l : Lease).
            find_task l.task_id after
            ≡ some (granted_row sha256 w cs token now db p.capability p.row))
          p.lease_is (Picks-found sha256 w cs token now db (candidates now db) lease after p);
    others = rw (p.after_is) (
        modify-Pointwise task_key (λ x y. (x.id ≡ p.row.id) ⊎ (y ≡ x)) p.row.id _ (λ x. inr refl)
          db.tasks (λ x t. inl (find-id task_key p.row.id db.tasks x t)));
  }

  -- On a table with unique ids, a claim either returns nothing and changes nothing, and then more
  -- than 32 tasks are queued, past their pause and unexpired or no capability of the worker serves
  -- any of these; or it returns a lease on one of them, where no capability serves an older one and
  -- the first capability that serves this one is bound: the lease has the task's id, owner and
  -- request, the worker, the token, the next generation, and ends after 600 seconds or at the
  -- task's deadline, the row is leased with one attempt more, the next generation, the hash of the
  -- token, that end and that capability, and no row of another id changes.
  pub claim_next-Grants : IsKeyed task_key db.tasks → Grants (claim_next sha256 w cs token now db)
  claim_next-Grants keyed = elim (claim_next-Claims sha256 w cs token now db keyed) [
    | inl (h, e) ↦ inl (
      e,
      elim (Bool-cases (leb (count (is_eligible now) db.tasks) 32)) [
        | inl few ↦ inr (
            All-mono _ _ db.tasks (λ r f waits. f (Waits-is_eligible now r waits))
              (passed_all cs now db (ground arith) h))
        | inr many ↦ inl (ground arith)
      ],
    )
    | inr (lease, after, e, p) ↦ inr (lease, after, e, Picks-Granted lease after p)
  ]
