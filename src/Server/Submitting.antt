-- ===== src/Server/Submitting.antt =====
-- Idempotent submission, over `create_uploading` of repository.py.
use model_courier.Prelude.{
  ℕ, ◌≡◌, refl, sym, ap, subst, ◌∙◌, inl, inr, String, Bool, true, List, [], ◌∷◌, ◌++◌, none, some,
  arith, eq_iff, eq_refl, ◌==◌, Bool-cases, Option-cases, if◌then◌else◌,
}
use model_courier.Prelude.Tables.{select_one, find}
use model_courier.Prelude.Tables.Laws.{Pointwise, IsKeyed, find-append_none}
use model_courier.Contracts.{TaskEnvelope}
use model_courier.Server.Exec.{Result, ok, err, conflict}
use model_courier.Server.Db.{Db, TaskRow, TaskEvent}
use model_courier.Server.Repository.{
  TaskRecord, task_key, find_task, same_key, row_to_task, reselect,
}
use model_courier.Server.Repository.Submit.{create_uploading, create_or_reuse, uploading_row}
use model_courier.Server.Lifecycle.{Move}
use model_courier.Server.Lifecycle.Rows.{Move-SameRequest}
use model_courier.Server.Lifecycle.Calls.{
  Call, Evolution, moves, adds, step, run, step-Evolution, creates,
}
use model_courier.Server.Lifecycle.Effects.{insert_task_cases}
use model_courier.Server.Lifecycle.History.{
  Later, Later-refl, Later-trans, Move-Later, step-IsKeyed, step-IsWellFormed, IsWellFormed,
}

module _ {R : TaskRow → TaskRow → Type 0} (p : TaskRow → Bool)
    (same : (x y : TaskRow) → R x y → p y ≡ p x) where
  pub select_one-Pointwise :
      (xs ys : List TaskRow) (x : TaskRow)
      → Pointwise R xs ys
      → select_one p xs ≡ some x
      → (y : TaskRow) × (select_one p ys ≡ some y) × R x y
  unfolding select_one
  select_one-Pointwise [] ys x r e = absurd (ground arith)
  select_one-Pointwise (a ∷ xs) [] x r e = absurd r
  select_one-Pointwise (a ∷ xs) (b ∷ ys) x r e = elim (Bool-cases (p a)) [
    | inl t ↦
        let here : a ≡ x = ground arith in
        (b, rw (same a b r.0, t) refl, subst (λ z. R z b) here r.0)
    | inr t ↦ rw (same a b r.0, t) (select_one-Pointwise xs ys x r.1 (rw t at e))
  ]

select_one-append :
    (p : TaskRow → Bool) (xs zs : List TaskRow) (x : TaskRow)
    → select_one p xs ≡ some x
    → select_one p (xs ++ zs) ≡ some x
unfolding select_one
select_one-append p [] zs x e = ground arith
select_one-append p (y ∷ ys) zs x e = ground (arith, select_one-append p ys zs x)

module _ (sha256 : String → String) (o d key : String) where
  -- The first row under a submission key stays the first, with its request.
  step-selected :
      (now : ℕ) (c : Call) (db : Db) (x : TaskRow)
      → IsKeyed task_key db.tasks
      → select_one (same_key o d key) db.tasks ≡ some x
      → (y : TaskRow) × (select_one (same_key o d key) (step sha256 now c db).tasks ≡ some y)
        × Later x y
  step-selected now c db x keyed e = go _ (step-Evolution sha256 now c db keyed)
    where
      go :
          (ys : List TaskRow)
          → Evolution now db.tasks ys
          → (y : TaskRow) × (select_one (same_key o d key) ys ≡ some y) × Later x y
      go ys (moves m) =
          let (y, found, r) =
            select_one-Pointwise {R = Move now} (same_key o d key)
              (λ a b r.
                let s = Move-SameRequest a b r in
                rw (s.owner_id, s.device_id, s.idempotency_key) refl)
              db.tasks ys x m e in
          (y, found, Move-Later x y r)
      go ys (adds z n free made) =
          (x, rw made (select_one-append (same_key o d key) db.tasks (z ∷ []) x e), Later-refl x)

  run-selected :
      (history : List (ℕ × Call)) (db : Db) (x : TaskRow)
      → IsKeyed task_key db.tasks
      → select_one (same_key o d key) db.tasks ≡ some x
      → (y : TaskRow) × (select_one (same_key o d key) (run sha256 history db).tasks ≡ some y)
        × Later x y
  unfolding run
  run-selected [] db x keyed e = (x, e, Later-refl x)
  run-selected ((now, c) ∷ history) db x keyed e =
      let (y, found, xy) = step-selected now c db x keyed e in
      let (z, last, yz) =
        run-selected history (step sha256 now c db) y (step-IsKeyed sha256 now c db keyed) found in
      (z, last, Later-trans x y z xy yz)

-- What a submission that succeeds leaves: the row of the key, with its digest.
Stored : String → String → TaskEnvelope → String → Result TaskRecord × Db → Type 0
Stored o d e g r =
    (t : TaskRecord)
    → r.0 ≡ ok t
    → (x : TaskRow) × (select_one (same_key o d e.idempotency_key) r.1.tasks ≡ some x)
      × (x.request_digest ≡ g)
      × (t.id ≡ x.id)

select_one-append_none :
    (p : TaskRow → Bool) (xs : List TaskRow) (z : TaskRow)
    → select_one p xs ≡ none
    → p z ≡ true
    → select_one p (xs ++ z ∷ []) ≡ some z
unfolding select_one
select_one-append_none p [] z e t = rw t refl
select_one-append_none p (y ∷ ys) z e t = ground (arith, select_one-append_none p ys z)

reuse-Stored :
    (o d g : String) (e : TaskEnvelope) (row x : TaskRow) (db : Db)
    → select_one (same_key o d e.idempotency_key) db.tasks ≡ some x
    → Stored o d e g (create_or_reuse g row (some x) db)
unfolding Stored create_or_reuse
reuse-Stored o d g e row x db s = elim (Bool-cases (x.request_digest == g)) [
  | inl y ↦ rw y (λ t q. (x, s, (eq_iff _ _).0 y, ground arith))
  | inr n ↦ rw n (λ t q. absurd (cc q))
]

find_here : (row : TaskRow) → find task_key row.id (row ∷ []) ≡ some row
unfolding find
find_here row = rw (eq_refl row.id) refl

-- A row that was just inserted is read back.
reselect-insert :
    (row : TaskRow) (db : Db) (es : List TaskEvent)
    → find_task row.id db ≡ none
    → reselect row.id (record db { tasks = db.tasks ++ row ∷ []; events = es })
      ≡ ok (row_to_task row)
unfolding reselect
reselect-insert row db es free =
    let found : find task_key row.id (db.tasks ++ row ∷ []) ≡ some row =
      find-append_none task_key row.id db.tasks (row ∷ []) free ∙ find_here row in
    rw (found, reselect) refl

abbrev created : String → ℕ → TaskEvent
created i now = record { task_id = i; event_type = "created"; details = none; created_at = now }

insert-Stored :
    (i o d g : String) (e : TaskEnvelope) (now : ℕ) (db : Db)
    → select_one (same_key o d e.idempotency_key) db.tasks ≡ none
    → Stored o d e g (create_or_reuse g (uploading_row i o d e g now) none db)
unfolding Stored create_or_reuse
insert-Stored i o d g e now db s =
    let row = uploading_row i o d e g now in
    elim (insert_task_cases row db) [
      | inl r ↦ rw r (λ t q. absurd (cc q))
      | inr (r, free) ↦ rw r (λ t q. (
        row,
        select_one-append_none (same_key o d e.idempotency_key) db.tasks row s
            (rw (eq_refl o, eq_refl d, eq_refl e.idempotency_key) refl),
        refl,
        ground (arith, reselect-insert row db (db.events ++ created i now ∷ []) free),
      ))
    ]

create_uploading-Stored :
    (i o d g : String) (e : TaskEnvelope) (now : ℕ) (db : Db)
    → Stored o d e g (create_uploading i o d e g now db)
unfolding create_uploading
create_uploading-Stored i o d g e now db =
    elim (Option-cases (select_one (same_key o d e.idempotency_key) db.tasks)) [
      | inl s ↦ rw (s, create_uploading) (insert-Stored i o d g e now db s)
      | inr (x, s) ↦
          rw (s, create_uploading) (reuse-Stored o d g e (uploading_row i o d e g now) x db s)
    ]

-- A submission under a key that is taken: the same digest returns the task, another one is refused,
-- and either way nothing changes.
create_uploading-taken :
    (i o d g : String) (e : TaskEnvelope) (now : ℕ) (db : Db) (x : TaskRow)
    → select_one (same_key o d e.idempotency_key) db.tasks ≡ some x
    → create_uploading i o d e g now db ≡ (
      if x.request_digest == g
          then ok (row_to_task x)
          else err (conflict "idempotency key was used with a different request"),
      db,
    )
unfolding create_uploading create_or_reuse
create_uploading-taken i o d g e now db x s =
    rw s (elim (Bool-cases (x.request_digest == g)) [ inl y ↦ rw y refl | inr n ↦ rw n refl ])

-- On a well-formed database, once a submission has returned a task, then after any history of calls
-- the idempotency key stands for that task: a submission with the same digest returns it, one with
-- another digest raises a conflict, and neither changes anything.
pub create_uploading-create_uploading :
    (sha256 : String → String) (i j o d g h : String) (e f : TaskEnvelope) (now later : ℕ)
    (db after : Db) (t : TaskRecord) (history : List (ℕ × Call))
    → IsWellFormed db
    → create_uploading i o d e g now db ≡ (ok t, after)
    → f.idempotency_key ≡ e.idempotency_key
    → let then_ = run sha256 history after in
      (t' : TaskRecord) × (t'.id ≡ t.id)
      × (create_uploading j o d f h later then_ ≡ (
        if g == h
            then ok t'
            else err (conflict "idempotency key was used with a different request"),
        then_,
      ))
unfolding step Stored
create_uploading-create_uploading sha256 i j o d g h e f now later db after t history v q key =
    let wf : IsWellFormed after =
      subst IsWellFormed (ap (λ (r : Result TaskRecord × Db). r.1) q)
        (step-IsWellFormed sha256 now (creates i o d e g) db v) in
    let (x, found, digest, same) =
      create_uploading-Stored i o d g e now db t (ap (λ (r : Result TaskRecord × Db). r.0) q) in
    let found' : select_one (same_key o d e.idempotency_key) after.tasks ≡ some x =
      subst (λ a. select_one (same_key o d e.idempotency_key) a.tasks ≡ some x)
        (ap (λ (r : Result TaskRecord × Db). r.1) q) found in
    let (y, last, l) = run-selected sha256 o d e.idempotency_key history after x wf.keyed found' in
    (
      row_to_task y,
      l.request.id ∙ sym same,
      subst
          (λ z. create_uploading j o d f h later (run sha256 history after) ≡ (
            if z == h
                then ok (row_to_task y)
                else err (conflict "idempotency key was used with a different request"),
            run sha256 history after,
          ))
          (l.request.request_digest ∙ digest)
          (create_uploading-taken j o d h f later _ y (
            subst (λ k. select_one (same_key o d k) (run sha256 history after).tasks ≡ some y)
              (sym key) last)),
    )
