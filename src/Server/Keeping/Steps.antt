-- ===== src/Server/Keeping/Steps.antt =====
-- About the step function of repository.py's calls while a worker holds a task.
use model_courier.Prelude.{
  ℕ, ◌+◌, ◌≤◌, ◌<◌, min, ◌≡◌, refl, sym, ap, subst, ◌∙◌, String, Bool, true, false, not, some,
  arith, eq_iff, eqb, ◌==◌, ◌&&◌,
}
use model_courier.Prelude.Tables.Laws.{find-modify}
use model_courier.Server.Exec.{ok}
use model_courier.Server.Db.{Db, TaskRow, Status, running}
use model_courier.Server.Repository.{
  Lease, task_key, find_task, modify_task, lease_seconds, is_held,
}
use model_courier.Server.Repository.Claim.{claim_next, candidates}
use model_courier.Server.Repository.Leases.{
  start, heartbeat, fail, prolong, is_current, check_row, check_lease,
}
use model_courier.Server.Lifecycle.Moves.{under_lease, publish_result-under_lease}
use model_courier.Server.Lifecycle.Calls.{
  Call, ensures_owner, ensures_device, ensures_worker, updates_capabilities, creates, finalizes,
  claims, starts, beats, gives_back, publishes_result, removes_inputs, sweeps, cancels_task, step,
}
use model_courier.Server.Lifecycle.Effects.{
  tasks-ensure_owner, tasks-ensure_device, tasks-ensure_worker, tasks-update_capabilities,
  tasks-remove_inputs,
}
use model_courier.Server.Keeping.{
  Holds, Kept, prolong-Holds, Kept-under_lease, Kept-claim_first, Kept-sweep, Kept-finalize,
  Kept-create, Kept-cancel, Kept-tasks,
}

-- A call under the same grant of the same task.
unfoldable pub is_grant : Lease → Lease → Bool
is_grant lease l = l.task_id == lease.task_id && eqb l.lease_generation lease.lease_generation

-- A call that presents the lease itself.
unfoldable pub presents : Lease → Lease → Bool
presents lease l =
    l.task_id == lease.task_id
    && eqb l.lease_generation lease.lease_generation
    && l.owner_id == lease.owner_id
    && l.worker_id == lease.worker_id
    && l.lease_token == lease.lease_token

-- Every call but the failure or the result of that grant, and the cancellation of the task.
unfoldable pub spares : Lease → Call → Bool
spares lease (gives_back l e r) = not (is_grant lease l)
spares lease (publishes_result l r) = not (is_grant lease l)
spares lease (cancels_task o t) = not (t == lease.task_id)
spares lease c = true

-- The calls that prolong the lease: the start and the heartbeats of the worker that holds it.
unfoldable pub renews : Lease → Call → Bool
renews lease (starts l) = presents lease l
renews lease (beats l) = presents lease l
renews lease c = false

module _ (sha256 : String → String) (deadline : ℕ) (lease : Lease) (until now : ℕ) where
  Holds-other :
      (l : Lease) (row : TaskRow)
      → is_current sha256 l now row ≡ true
      → (l.task_id == lease.task_id) ≡ true
      → not (is_grant lease l) ≡ true
      → Holds sha256 deadline lease until row
      → ⊥
  unfolding is_current is_grant
  Holds-other l row c t n h = ground arith

  presents-task : (l : Lease) → presents lease l ≡ true → l.task_id ≡ lease.task_id
  unfolding presents
  presents-task l p = (eq_iff l.task_id lease.task_id).0 (ground arith)

  -- The holder of a lease that is kept passes the check.
  Holds-current :
      (l : Lease) (x : TaskRow)
      → now < until
      → presents lease l ≡ true
      → Holds sha256 deadline lease until x
      → check_row sha256 l now x ≡ ok x
  unfolding check_row is_current presents
  Holds-current l x t p h =
      let token : l.lease_token ≡ lease.lease_token =
        (eq_iff l.lease_token lease.lease_token).0 (ground arith) in
      let owner : l.owner_id ≡ lease.owner_id =
        (eq_iff l.owner_id lease.owner_id).0 (ground arith) in
      let worker : l.worker_id ≡ lease.worker_id =
        (eq_iff l.worker_id lease.worker_id).0 (ground arith) in
      ground (arith, token, owner, worker, ap sha256 token)

  pub Kept-current :
      (l : Lease) (x : TaskRow) (db : Db)
      → now < until
      → presents lease l ≡ true
      → find_task l.task_id db ≡ some x
      → Holds sha256 deadline lease until x
      → check_lease sha256 l now db ≡ ok x
  unfolding check_lease
  Kept-current l x db t p here h = rw (here, check_lease) (Holds-current l x t p h)

  -- A call under the lease itself prolongs it to the time that the call gives.
  Kept-presents :
      (l : Lease) (g : TaskRow → TaskRow → TaskRow) (db : Db)
      → now < until
      → presents lease l ≡ true
      → ((row x : TaskRow) → (g row x).id ≡ x.id)
      → ((x : TaskRow)
          → Holds sha256 deadline lease until x
          → Holds sha256 deadline lease (min (now + lease_seconds) deadline) (g x x))
      → Kept sha256 deadline lease until db
      → Kept sha256 deadline lease
          (min (now + lease_seconds) deadline)
          (under_lease sha256 l now g db).1
  Kept-presents l g db t p keep move (x, found, h) =
      let same = presents-task l p in
      let here : find_task l.task_id db ≡ some x = ap (λ k. find_task k db) same ∙ found in
      rw (Kept-current l x db t p here h) (
        g x x,
        ap (λ k. find_task k (modify_task l.task_id (g x) db)) (sym same)
            ∙ find-modify task_key l.task_id (g x) (keep x) db.tasks x here,
        move x h,
      )

  renewed-Holds :
      (s : Status) (x : TaskRow)
      → is_held s ≡ true
      → now < until
      → Holds sha256 deadline lease until x
      → Holds sha256 deadline lease
          (min (now + lease_seconds) deadline)
          (prolong s (min (now + lease_seconds) x.execution_deadline) now x)
  renewed-Holds s x e t h = ground arith

  -- A start or a heartbeat of the worker that holds the lease prolongs it by the lease time, up to
  -- the task's deadline.
  pub renews-Kept :
      (c : Call) (db : Db)
      → now < until
      → renews lease c ≡ true
      → Kept sha256 deadline lease until db
      → Kept sha256 deadline lease (min (now + lease_seconds) deadline) (step sha256 now c db)
  unfolding step renews start heartbeat
  renews-Kept (starts l) db t p k =
      Kept-presents l _ db t p (λ row x. refl) (λ x h. renewed-Holds running x refl t h) k
  renews-Kept (beats l) db t p k =
      Kept-presents l _ db t p (λ row x. refl) (λ x h. renewed-Holds x.status x h.held t h) k
  renews-Kept (ensures_owner o) db t p k = absurd (ground arith)
  renews-Kept (ensures_device o d h) db t p k = absurd (ground arith)
  renews-Kept (ensures_worker o w h cs) db t p k = absurd (ground arith)
  renews-Kept (updates_capabilities w cs) db t p k = absurd (ground arith)
  renews-Kept (creates i o d e g) db t p k = absurd (ground arith)
  renews-Kept (finalizes i j a g q) db t p k = absurd (ground arith)
  renews-Kept (claims w cs token) db t p k = absurd (ground arith)
  renews-Kept (gives_back l e r) db t p k = absurd (ground arith)
  renews-Kept (publishes_result l r) db t p k = absurd (ground arith)
  renews-Kept (removes_inputs o j) db t p k = absurd (ground arith)
  renews-Kept sweeps db t p k = absurd (ground arith)
  renews-Kept (cancels_task o j) db t p k = absurd (ground arith)

  -- Any other call that spares the task leaves the lease as it is.
  pub step-Kept :
      (c : Call) (db : Db)
      → now < until
      → until ≤ now + lease_seconds
      → spares lease c ≡ true
      → Kept sha256 deadline lease until db
      → Kept sha256 deadline lease until (step sha256 now c db)
  unfolding step spares claim_next start heartbeat fail
  step-Kept (ensures_owner o) db t u p k =
      Kept-tasks sha256 deadline lease until now db (step sha256 now (ensures_owner o) db)
        (tasks-ensure_owner now db o) k
  step-Kept (ensures_device o d h) db t u p k =
      Kept-tasks sha256 deadline lease until now db (step sha256 now (ensures_device o d h) db)
        (tasks-ensure_device now db o d h) k
  step-Kept (ensures_worker o w h cs) db t u p k =
      Kept-tasks sha256 deadline lease until now db (step sha256 now (ensures_worker o w h cs) db)
        (tasks-ensure_worker now db o w h cs) k
  step-Kept (updates_capabilities w cs) db t u p k =
      Kept-tasks sha256 deadline lease until now db (step sha256 now (updates_capabilities w cs) db)
        (tasks-update_capabilities now db w cs) k
  step-Kept (creates i o d e g) db t u p k =
      Kept-create sha256 deadline lease until now i o d e g db k
  step-Kept (finalizes i j a g q) db t u p k =
      Kept-finalize sha256 deadline lease until now i j a g q db k
  step-Kept (claims w cs token) db t u p k =
      Kept-claim_first sha256 deadline lease until now w cs token (candidates now db) db k
  step-Kept (starts l) db t u p k =
      Kept-under_lease sha256 deadline lease until now l _ db (λ row x. refl)
        (λ row c e h. prolong-Holds sha256 deadline lease until now running row refl u h) k
  step-Kept (beats l) db t u p k =
      Kept-under_lease sha256 deadline lease until now l _ db (λ row x. refl)
        (λ row c e h. prolong-Holds sha256 deadline lease until now row.status row h.held u h) k
  step-Kept (gives_back l e r) db t u p k =
      Kept-under_lease sha256 deadline lease until now l _ db (λ row x. refl)
        (λ row c e h. absurd (Holds-other l row c e p h)) k
  step-Kept (publishes_result l r) db t u p k =
      subst (λ o. Kept sha256 deadline lease until o.1)
        (sym (publish_result-under_lease sha256 l now r db))
        (Kept-under_lease sha256 deadline lease until now l _ db (λ row x. refl)
          (λ row c e h. absurd (Holds-other l row c e p h)) k)
  step-Kept (removes_inputs o j) db t u p k =
      Kept-tasks sha256 deadline lease until now db (step sha256 now (removes_inputs o j) db)
        (tasks-remove_inputs now db o j) k
  step-Kept sweeps db t u p k = Kept-sweep sha256 deadline lease until now db t k
  step-Kept (cancels_task o j) db t u p k =
      Kept-cancel sha256 deadline lease until now o j db (ground arith) k
