-- ===== src/Server/Sweeping.antt =====
-- What `requeue_expired` of repository.py leaves behind, and what the number that it returns counts.
use model_courier.Prelude.{
  ℕ, ◌+◌, ◌*◌, ◌≡◌, refl, ap, Bool, false, List, [], ◌∷◌, All, All-mono, arith, ◌||◌, Bool-cases,
  inl, inr, ◌⊎◌, ◌<◌, some, if◌then◌else◌,
}
use model_courier.Prelude.Tables.{update, count}
use model_courier.Server.Db.{Db, TaskRow, uploading, queued, leased, running}
use model_courier.Server.Repository.Submit.{expire}
use model_courier.Server.Repository.Sweep.{
  requeue_expired, is_overdue, is_lapsed, is_retriable, is_exhausted, requeue, exhaust,
}
use model_courier.Server.Lifecycle.Moves.{swept, sweep_tasks}

-- Nothing waits past its expiry, and nobody holds a lease past its end.
abbrev IsQuiet : ℕ → TaskRow → Type 0
IsQuiet now r = (is_overdue now r ≡ false) × (is_lapsed now r ≡ false)

swept-IsQuiet : (now : ℕ) (x : TaskRow) → IsQuiet now (swept now x)
swept-IsQuiet now x = elim (Bool-cases (is_overdue now x)) [
  | inl o ↦ rw o (refl, refl)
  | inr o ↦ rw o (elim (Bool-cases (is_retriable now x)) [
    | inl r ↦ rw r (ground arith, refl)
    | inr r ↦ rw r (elim (Bool-cases (is_exhausted now x)) [
      | inl e ↦ rw e (refl, refl)
      | inr e ↦ rw e (o, ground arith)
    ])
  ])
]

sweep_tasks-IsQuiet : (now : ℕ) (xs : List TaskRow) → All (IsQuiet now) (sweep_tasks now xs)
unfolding update
sweep_tasks-IsQuiet now [] = tt
sweep_tasks-IsQuiet now (x ∷ xs) = (swept-IsQuiet now x, sweep_tasks-IsQuiet now xs)

-- A task that waits has not expired, and one that is held is under a lease that has not run out.
pub record IsClean (now : ℕ) (r : TaskRow) : Type 0 where
  pub waiting : (r.status ≡ uploading) ⊎ (r.status ≡ queued) → now < r.expires_at
  pub held :
      (r.status ≡ leased) ⊎ (r.status ≡ running)
      → (until : ℕ) → r.lease_until ≡ some until
      → now < until

IsQuiet-waiting :
    (now : ℕ) (r : TaskRow)
    → is_overdue now r ≡ false
    → (r.status ≡ uploading) ⊎ (r.status ≡ queued)
    → now < r.expires_at
IsQuiet-waiting now r h (inl s) = let k = rw s at h in ground arith
IsQuiet-waiting now r h (inr s) = let k = rw s at h in ground arith

IsQuiet-held :
    (now : ℕ) (r : TaskRow)
    → is_lapsed now r ≡ false
    → (r.status ≡ leased) ⊎ (r.status ≡ running)
    → (until : ℕ) → r.lease_until ≡ some until
    → now < until
IsQuiet-held now r h (inl s) until e = let k = rw (s, e) at h in ground arith
IsQuiet-held now r h (inr s) until e = let k = rw (s, e) at h in ground arith

IsQuiet-IsClean : (now : ℕ) (r : TaskRow) → IsQuiet now r → IsClean now r
IsQuiet-IsClean now r q = record {
  waiting = IsQuiet-waiting now r q.0;
  held = IsQuiet-held now r q.1;
}

requeue_expired-IsQuiet : (now : ℕ) (db : Db) → All (IsQuiet now) (requeue_expired now db).1.tasks
unfolding requeue_expired
requeue_expired-IsQuiet now db = sweep_tasks-IsQuiet now db.tasks

-- After a sweep no task waits past its expiry or is held past its lease.
pub requeue_expired-IsClean :
    (now : ℕ) (db : Db) → All (IsClean now) (requeue_expired now db).1.tasks
requeue_expired-IsClean now db =
    All-mono _ _ (requeue_expired now db).1.tasks (IsQuiet-IsClean now)
      (requeue_expired-IsQuiet now db)

-- The three statements find nothing in a clean table.
update-none :
    (p : TaskRow → Bool) (f : TaskRow → TaskRow) (xs : List TaskRow)
    → All (λ r. p r ≡ false) xs
    → update p f xs ≡ xs
unfolding update
update-none p f [] h = refl
update-none p f (x ∷ xs) h = rw h.0 (ap (λ l. x ∷ l) (update-none p f xs h.1))

count-none : (p : TaskRow → Bool) (xs : List TaskRow) → All (λ r. p r ≡ false) xs → count p xs ≡ 0
unfolding count
count-none p [] h = refl
count-none p (x ∷ xs) h = rw h.0 (omega (arith, count-none p xs h.1))

record IsIdle (now : ℕ) (xs : List TaskRow) : Type 0 where
  overdue : All (λ r. is_overdue now r ≡ false) xs
  retriable : All (λ r. is_retriable now r ≡ false) xs
  exhausted : All (λ r. is_exhausted now r ≡ false) xs

IsQuiet-IsIdle : (now : ℕ) (xs : List TaskRow) → All (IsQuiet now) xs → IsIdle now xs
IsQuiet-IsIdle now xs h = record {
  overdue = All-mono _ _ xs (λ r c. c.0) h;
  retriable = All-mono _ _ xs (λ r c. rw c.1 refl) h;
  exhausted = All-mono _ _ xs (λ r c. rw c.1 refl) h;
}

requeue_expired-idle : (now : ℕ) (db : Db) → IsIdle now db.tasks → requeue_expired now db ≡ (0, db)
unfolding requeue_expired
requeue_expired-idle now db i =
    rw
      (
        update-none (is_overdue now) (expire now) db.tasks i.overdue,
        update-none (is_retriable now) (requeue now) db.tasks i.retriable,
        update-none (is_exhausted now) (exhaust now) db.tasks i.exhausted,
        count-none (is_overdue now) db.tasks i.overdue,
        count-none (is_retriable now) db.tasks i.retriable,
        count-none (is_exhausted now) db.tasks i.exhausted,
      )
      refl

-- A second sweep at the same time changes nothing and returns 0.
pub requeue_expired-requeue_expired :
    (now : ℕ) (db : Db)
    → let after = (requeue_expired now db).1 in requeue_expired now after ≡ (0, after)
requeue_expired-requeue_expired now db =
    requeue_expired-idle now _ (IsQuiet-IsIdle now _ (requeue_expired-IsQuiet now db))

-- An UPDATE that does not change a test does not change how many rows pass it.
count-update :
    (p q : TaskRow → Bool) (f : TaskRow → TaskRow)
    → ((r : TaskRow) → p (if q r then f r else r) ≡ p r)
    → (xs : List TaskRow) → count p (update q f xs) ≡ count p xs
unfolding update count
count-update p q f same [] = refl
count-update p q f same (x ∷ xs) = rw (same x, count-update p q f same xs) refl

retriable-expire :
    (now : ℕ) (r : TaskRow)
    → is_retriable now (if is_overdue now r then expire now r else r) ≡ is_retriable now r
retriable-expire now r = elim (Bool-cases (is_overdue now r)) [
  | inl o ↦ rw o (ground arith)
  | inr o ↦ rw o refl
]

exhausted-expire :
    (now : ℕ) (r : TaskRow)
    → is_exhausted now (if is_overdue now r then expire now r else r) ≡ is_exhausted now r
exhausted-expire now r = elim (Bool-cases (is_overdue now r)) [
  | inl o ↦ rw o (ground arith)
  | inr o ↦ rw o refl
]

exhausted-requeue :
    (now : ℕ) (r : TaskRow)
    → is_exhausted now (if is_retriable now r then requeue now r else r) ≡ is_exhausted now r
exhausted-requeue now r = elim (Bool-cases (is_retriable now r)) [
  | inl o ↦ rw o (ground arith)
  | inr o ↦ rw o refl
]

-- The tasks that a sweep changes.
abbrev pub is_swept : ℕ → TaskRow → Bool
is_swept now r = is_overdue now r || is_lapsed now r

swept_one :
    (now : ℕ) (r : TaskRow)
    → (if is_swept now r then 1 else 0)
      ≡ (if is_overdue now r then 1 else 0)
        + (if is_retriable now r then 1 else 0)
        + (if is_exhausted now r then 1 else 0)
swept_one now r = ground arith

count-is_swept :
    (now : ℕ) (xs : List TaskRow)
    → count (is_swept now) xs
      ≡ count (is_overdue now) xs + count (is_retriable now) xs + count (is_exhausted now) xs
unfolding count
count-is_swept now [] = omega arith
count-is_swept now (x ∷ xs) = omega (arith, swept_one now x, count-is_swept now xs)

-- The number that a sweep returns is that of the tasks that it changes, plus twice the number of
-- those that expire, plus the number of those that it queues again.
pub requeue_expired-overcounts :
    (now : ℕ) (db : Db)
    → (requeue_expired now db).0
      ≡ count (is_swept now) db.tasks
        + 2 * count (is_overdue now) db.tasks
        + count (is_retriable now) db.tasks
unfolding requeue_expired
requeue_expired-overcounts now db = omega (
  arith,
  count-update (is_retriable now) (is_overdue now) (expire now) (retriable-expire now) db.tasks,
  count-update (is_exhausted now) (is_retriable now) (requeue now) (exhausted-requeue now)
      (update (is_overdue now) (expire now) db.tasks),
  count-update (is_exhausted now) (is_overdue now) (expire now) (exhausted-expire now) db.tasks,
  count-is_swept now db.tasks,
)
