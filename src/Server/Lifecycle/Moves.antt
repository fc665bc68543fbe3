-- ===== src/Server/Lifecycle/Moves.antt =====
-- About the calls of repository.py on one row or on all: the moves that each makes.
use model_courier.Prelude.{
  ℕ, ◌+◌, ◌<◌, ◌≡◌, refl, sym, subst, inl, inr, String, Bool, true, List, [], ◌∷◌, some, arith,
  if◌then◌else◌, Bool-cases, Option-cases,
}
use model_courier.Prelude.Tables.{find, modify, update}
use model_courier.Prelude.Tables.Laws.{Pointwise, Pointwise-refl, modify-Pointwise, find-modify}
use model_courier.Contracts.{ErrorEnvelope, ProviderResult}
use model_courier.Server.Exec.{Result, Error, ok, err, Result-cases, continue}
use model_courier.Server.Db.{Db, TaskRow, queued, running, failed}
use model_courier.Server.Repository.{
  Lease, TaskRecord, task_key, find_task, modify_task, reselect, row_to_task, backoff,
}
use model_courier.Server.Repository.Leases.{
  check_row, is_current, check_lease, start, heartbeat, fail, publish_result, should_retry,
  give_back, publish,
}
use model_courier.Server.Repository.Sweep.{
  requeue_expired, is_overdue, is_retriable, is_exhausted, requeue, exhaust,
}
use model_courier.Server.Repository.Submit.{expire}
use model_courier.Server.Lifecycle.{
  Move, stays, expires, prolongs, retries, fails, publishes, requeues, exhausts, IsLive,
}

abbrev pub Moved : ℕ → List TaskRow → List TaskRow → Type 0
Moved now = Pointwise (Move now)

pub Moved-refl : (now : ℕ) (xs : List TaskRow) → Moved now xs xs
Moved-refl now = Pointwise-refl (Move now) (λ x. stays refl)

-- An UPDATE of one row, which is the row that was read.
pub modify-Moved :
    (now : ℕ) (k : String) (f : TaskRow → TaskRow) (row : TaskRow) (xs : List TaskRow)
    → find task_key k xs ≡ some row
    → Move now row (f row)
    → Moved now xs (modify task_key k f xs)
modify-Moved now k f row xs e m =
    modify-Pointwise task_key (Move now) k f (λ x. stays refl) xs
      (λ x e'. subst (λ z. Move now z (f z)) (cc) m)

pub reselect-modify :
    (k : String) (f : TaskRow → TaskRow) (keep : (x : TaskRow) → (f x).id ≡ x.id) (row : TaskRow)
    (db : Db)
    → find_task k db ≡ some row
    → reselect k (modify_task k f db) ≡ ok (row_to_task (f row))
unfolding reselect
reselect-modify k f keep row db e = rw (find-modify task_key k f keep db.tasks row e, reselect) refl

module _ (sha256 : String → String) (lease : Lease) (now : ℕ) where
  -- What a lease that passes the check is about.
  pub record Checked (db : Db) (row : TaskRow) : Type 0 where
    pub found : find_task lease.task_id db ≡ some row
    pub current : is_current sha256 lease now row ≡ true
    pub live : IsLive now row

  is_current-IsLive :
      (row : TaskRow)
      → is_current sha256 lease now row ≡ true
      → now < row.execution_deadline
      → IsLive now row
  unfolding is_current
  is_current-IsLive row c t = ground arith

  check_row-ok :
      (row r : TaskRow)
      → check_row sha256 lease now row ≡ ok r
      → (r ≡ row) × (is_current sha256 lease now row ≡ true) × (now < row.execution_deadline)
  unfolding check_row
  check_row-ok row r e = ground arith

  pub check_lease-Checked :
      (db : Db) (r : TaskRow) → check_lease sha256 lease now db ≡ ok r → Checked db r
  unfolding check_lease
  check_lease-Checked db r e = elim (Option-cases (find_task lease.task_id db)) [
    | inl n ↦ absurd (let h = rw (n, check_lease) at e in cc)
    | inr (row, n) ↦
        let (same, c, t) = check_row-ok row r (rw (n, check_lease) at e) in
        rw same (record { found = n; current = c; live = is_current-IsLive row c t })
  ]

  -- The shape of the calls under a lease: the check, one UPDATE, and the row read back.
  abbrev pub under_lease : (TaskRow → TaskRow → TaskRow) → Db → Result TaskRecord × Db
  under_lease g db =
      continue (check_lease sha256 lease now db)
        (λ row s. (
          reselect lease.task_id (modify_task lease.task_id (g row) s),
          modify_task lease.task_id (g row) s,
        ))
        db

  -- Either the check raises and nothing changes, or the row that was checked is updated and read back.
  pub under_lease_cases :
      (P : Result TaskRecord × Db → Type 0) (g : TaskRow → TaskRow → TaskRow)
      → ((row x : TaskRow) → (g row x).id ≡ x.id)
      → (db : Db) → ((e : Error) → check_lease sha256 lease now db ≡ err e → P (err e, db))
      → ((row : TaskRow)
          → Checked db row
          → P (ok (row_to_task (g row row)), modify_task lease.task_id (g row) db))
      → P (under_lease g db)
  under_lease_cases P g keep db refused done =
      elim (Result-cases (check_lease sha256 lease now db)) [
        | inr (e, h) ↦ rw h (refused e h)
        | inl (row, h) ↦
            let c = check_lease-Checked db row h in
            let again = reselect-modify lease.task_id (g row) (keep row) row db c.found in
            rw h (subst (λ r. P (r, modify_task lease.task_id (g row) db)) (sym again) (done row c))
      ]

  under_lease-Moved :
      (g : TaskRow → TaskRow → TaskRow)
      → ((row x : TaskRow) → (g row x).id ≡ x.id)
      → ((row : TaskRow) → IsLive now row → Move now row (g row row))
      → (db : Db) → Moved now db.tasks (under_lease g db).1.tasks
  under_lease-Moved g keep move db =
      under_lease_cases (λ r. Moved now db.tasks r.1.tasks) g keep db
        (λ e h. Moved-refl now db.tasks)
        (λ row c. modify-Moved now lease.task_id (g row) row db.tasks c.found (move row c.live))

  pub start-Moved : (db : Db) → Moved now db.tasks (start sha256 lease now db).1.tasks
  unfolding start
  start-Moved db = under_lease-Moved _ (λ row x. refl) (λ row l. prolongs running l refl refl) db

  pub heartbeat-Moved : (db : Db) → Moved now db.tasks (heartbeat sha256 lease now db).1.tasks
  unfolding heartbeat
  heartbeat-Moved db =
      under_lease-Moved _ (λ row x. refl) (λ row l. prolongs row.status l l.held refl) db

  abbrev pub given_back : ErrorEnvelope → Bool → TaskRow → TaskRow → TaskRow
  given_back error retryable row =
      let retry = should_retry retryable now row in
      give_back (if retry then queued else failed)
        (if retry then now + backoff row.attempt else now) error now

  fail-Move :
      (error : ErrorEnvelope) (retryable : Bool) (row : TaskRow)
      → IsLive now row
      → Move now row (given_back error retryable row row)
  fail-Move error retryable row l = elim (Bool-cases (should_retry retryable now row)) [
    | inl y ↦ rw y (retries error l (ground arith) (ground arith) refl)
    | inr n ↦ rw n (fails error l refl)
  ]

  pub fail-Moved :
      (error : ErrorEnvelope) (retryable : Bool) (db : Db)
      → Moved now db.tasks (fail sha256 lease error retryable now db).1.tasks
  unfolding fail
  fail-Moved error retryable db = under_lease-Moved _ (λ row x. refl) (fail-Move error retryable) db

  -- The second test of `publish_result` never fails after the check.
  pub publish_result-under_lease :
      (result : ProviderResult) (db : Db)
      → publish_result sha256 lease result now db ≡ under_lease (λ row. publish result now) db
  unfolding publish_result
  publish_result-under_lease result db = elim (Result-cases (check_lease sha256 lease now db)) [
    | inr (e, h) ↦ rw h
    | inl (row, h) ↦ rw (h, (check_lease-Checked db row h).live.held)
  ]

  pub publish_result-Moved :
      (result : ProviderResult) (db : Db)
      → Moved now db.tasks (publish_result sha256 lease result now db).1.tasks
  publish_result-Moved result db =
      rw publish_result-under_lease
        (under_lease-Moved _ (λ row x. refl) (λ row l. publishes result l refl) db)

-- The three statements of the sweep at one row, one after another.
abbrev pub swept : ℕ → TaskRow → TaskRow
swept now x =
    let x₁ = if is_overdue now x then expire now x else x in
    let x₂ = if is_retriable now x₁ then requeue now x₁ else x₁ in
    if is_exhausted now x₂ then exhaust now x₂ else x₂

pub swept-Move : (now : ℕ) (x : TaskRow) → Move now x (swept now x)
swept-Move now x = elim (Bool-cases (is_overdue now x)) [
  | inl o ↦ rw o (expires (ground arith) (ground arith) refl)
  | inr o ↦ rw o (elim (Bool-cases (is_retriable now x)) [
    | inl r ↦ rw r (requeues (ground arith) (ground arith) (ground arith) refl)
    | inr r ↦ rw r (elim (Bool-cases (is_exhausted now x)) [
      | inl e ↦ rw e (exhausts (ground arith) refl)
      | inr e ↦ rw e (stays refl)
    ])
  ])
]

-- The three statements on the whole table.
abbrev pub sweep_tasks : ℕ → List TaskRow → List TaskRow
sweep_tasks now xs =
    update (is_exhausted now) (exhaust now)
      (update (is_retriable now) (requeue now) (update (is_overdue now) (expire now) xs))

pub sweep_tasks-Pointwise :
    (R : TaskRow → TaskRow → Type 0) (now : ℕ)
    → ((x : TaskRow) → R x (swept now x))
    → (xs : List TaskRow) → Pointwise R xs (sweep_tasks now xs)
unfolding update
sweep_tasks-Pointwise R now r [] = tt
sweep_tasks-Pointwise R now r (x ∷ xs) = (r x, sweep_tasks-Pointwise R now r xs)

pub requeue_expired-Moved :
    (now : ℕ) (db : Db) → Moved now db.tasks (requeue_expired now db).1.tasks
unfolding requeue_expired
requeue_expired-Moved now db = sweep_tasks-Pointwise (Move now) now (swept-Move now) db.tasks
