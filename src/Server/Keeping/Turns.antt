-- ===== src/Server/Keeping/Turns.antt =====
-- About repository.py while a worker holds a task and beats: the lease stays current.
use model_courier.Prelude.{
  ℕ, ◌+◌, ◌≤◌, ◌<◌, min, ◌≡◌, refl, sym, ap, subst, ◌∙◌, inl, inr, String, true, List, [], ◌∷◌,
  some, arith, eq_refl, ◌==◌, if◌then◌else◌, Bool-cases,
}
use model_courier.Contracts.{CapabilityManifest, ProviderResult}
use model_courier.Server.Exec.{ok}
use model_courier.Server.Db.{Db, TaskRow}
use model_courier.Server.Repository.{Lease, find_task, lease_seconds, row_to_task, modify_task}
use model_courier.Server.Repository.Claim.{claim_next, lease_of, candidates}
use model_courier.Server.Repository.Leases.{check_lease, publish_result, publish}
use model_courier.Server.Lifecycle.Moves.{reselect-modify, publish_result-under_lease}
use model_courier.Server.Lifecycle.Calls.{Call, run}
use model_courier.Server.Lifecycle.History.{IsWellFormed}
use model_courier.Server.Claiming.{claim_next-Picks, Picks-found, granted_row}
use model_courier.Server.Keeping.{Holds, Kept}
use model_courier.Server.Keeping.Steps.{
  spares, renews, presents, renews-Kept, step-Kept, Kept-current,
}

-- A history that leaves the lease alone and in which its worker beats in time: the clock does not
-- go back, and no two beats in a row, nor the last of them and the end, are as far apart as the
-- lease time; all of it is before the deadline.
unfoldable pub IsTimely : Lease → (deadline beat last : ℕ) → List (ℕ × Call) → (end : ℕ) → Type 0
IsTimely lease deadline beat last [] end = (end < beat + lease_seconds) × (end < deadline)
IsTimely lease deadline beat last ((now, c) ∷ history) end =
    (last ≤ now)
    × (now < beat + lease_seconds)
    × (now < deadline)
    × (spares lease c ≡ true)
    × IsTimely lease deadline (if renews lease c then now else beat) now history end

module _ (sha256 : String → String) (deadline : ℕ) (lease : Lease) where
  -- The lease is kept all along such a history.
  run-Kept :
      (history : List (ℕ × Call)) (beat last end : ℕ) (db : Db)
      → beat ≤ last
      → IsTimely lease deadline beat last history end
      → Kept sha256 deadline lease (min (beat + lease_seconds) deadline) db
      → (until : ℕ) × (end < until) × Kept sha256 deadline lease until (run sha256 history db)
  unfolding run IsTimely
  run-Kept [] beat last end db b (t, d) k = (min (beat + lease_seconds) deadline, ground arith, k)
  run-Kept ((now, c) ∷ history) beat last end db b (later, t, d, spared, rest) k =
      let early : now < min (beat + lease_seconds) deadline = ground arith in
      elim (Bool-cases (renews lease c)) [
        | inl r ↦ run-Kept history now now end _ (ground arith) (rw r at rest) (
            renews-Kept sha256 deadline lease (min (beat + lease_seconds) deadline) now c db early r
              k)
        | inr r ↦ run-Kept history beat now end _ (ground arith) (rw r at rest) (
            step-Kept sha256 deadline lease (min (beat + lease_seconds) deadline) now c db early
              (ground arith) spared k)
      ]

pub presents_self : (lease : Lease) → presents lease lease ≡ true
unfolding presents
presents_self lease = ground (
  arith,
  eq_refl lease.task_id,
  eq_refl lease.owner_id,
  eq_refl lease.worker_id,
  eq_refl lease.lease_token,
)

-- A result that is published under a lease that passes the check is stored.
pub publish_current :
    (sha256 : String → String) (l : Lease) (result : ProviderResult) (now : ℕ) (db : Db)
    (x : TaskRow)
    → find_task l.task_id db ≡ some x
    → check_lease sha256 l now db ≡ ok x
    → publish_result sha256 l result now db
      ≡ (ok (row_to_task (publish result now x)), modify_task l.task_id (publish result now) db)
publish_current sha256 l result now db x found current =
    publish_result-under_lease sha256 l now result db
    ∙ rw current (rw (reselect-modify l.task_id (publish result now) (λ r. refl) x db found) refl)

module _ (sha256 : String → String) (w : String) (cs : List CapabilityManifest) (token : String)
    (now : ℕ) (db after : Db) (lease : Lease) (row : TaskRow) where
  granted_row-Holds :
      (c : CapabilityManifest) (x : TaskRow)
      → Holds sha256 x.execution_deadline
          (lease_of w c token now x)
          (min (now + lease_seconds) x.execution_deadline)
          (granted_row sha256 w cs token now db c x)
  granted_row-Holds c x = record {
    owner = eq_refl x.owner_id;
    worker = eq_refl w;
    generation = ground arith;
    token = eq_refl (sha256 token);
    held = refl;
    lasting = ground arith;
    due_at = refl;
    in_time = ground arith;
  }

  -- A claim leaves the task held under the lease that it returns.
  granted-Kept :
      IsWellFormed db
      → claim_next sha256 w cs token now db ≡ (ok (some lease), after)
      → find_task lease.task_id after ≡ some row
      → Kept sha256 row.execution_deadline lease
          (min (now + lease_seconds) row.execution_deadline)
          after
  granted-Kept v e f =
      let p = claim_next-Picks sha256 w cs token now db lease after v.keyed e in
      let granted = granted_row sha256 w cs token now db p.capability p.row in
      let found = Picks-found sha256 w cs token now db (candidates now db) lease after p in
      let same : granted ≡ row = cc in
      (
        row,
        f,
        subst
            (λ x.
              Holds sha256 x.execution_deadline lease
                (min (now + lease_seconds) x.execution_deadline) x)
            same
            (subst
              (λ l.
                Holds sha256 p.row.execution_deadline l
                  (min (now + lease_seconds) p.row.execution_deadline) granted)
              (sym p.lease_is) (granted_row-Holds p.capability p.row)),
      )

  -- So it passes the check at the end of a timely history, presented in full.
  pub claim_next-check_lease :
      (l : Lease) (history : List (ℕ × Call)) (end : ℕ)
      → presents lease l ≡ true
      → l.task_id ≡ lease.task_id
      → IsWellFormed db
      → claim_next sha256 w cs token now db ≡ (ok (some lease), after)
      → find_task lease.task_id after ≡ some row
      → IsTimely lease row.execution_deadline now now history end
      → (x : TaskRow) × (find_task l.task_id (run sha256 history after) ≡ some x)
        × ((x.owner_id == lease.owner_id) ≡ true)
        × (check_lease sha256 l end (run sha256 history after) ≡ ok x)
  claim_next-check_lease l history end p same v e f timely =
      let (until, early, (x, found, h)) =
        run-Kept sha256 row.execution_deadline lease history now now end after (ground arith) timely
          (granted-Kept v e f) in
      let last = run sha256 history after in
      let here : find_task l.task_id last ≡ some x = ap (λ k. find_task k last) same ∙ found in
      (
        x,
        here,
        h.owner,
        Kept-current sha256 row.execution_deadline lease until end l x last early p here h,
      )

  -- A worker that beats in time keeps its task: on a well-formed database, after a claim that
  -- returns a lease and any history of calls in which the clock does not go back, no call under the
  -- same grant reports a failure or a result, none cancels the task, and from the claim on the
  -- starts and heartbeats under the lease come less than the lease time apart, all before the
  -- task's deadline, the lease still passes the check at the end, and a result published under it
  -- then is stored.
  pub claim_next-keeps :
      (result : ProviderResult) (history : List (ℕ × Call)) (end : ℕ)
      → IsWellFormed db
      → claim_next sha256 w cs token now db ≡ (ok (some lease), after)
      → find_task lease.task_id after ≡ some row
      → IsTimely lease row.execution_deadline now now history end
      → (x : TaskRow) × (check_lease sha256 lease end (run sha256 history after) ≡ ok x)
        × (publish_result sha256 lease result end (run sha256 history after) ≡ (
          ok (row_to_task (publish result end x)),
          modify_task lease.task_id (publish result end) (run sha256 history after),
        ))
  claim_next-keeps result history end v e f timely =
      let last = run sha256 history after in
      let (x, found, own, current) =
        claim_next-check_lease lease history end (presents_self lease) refl v e f timely in
      (x, current, publish_current sha256 lease result end last x found current)
