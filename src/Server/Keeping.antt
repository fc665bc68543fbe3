-- ===== src/Server/Keeping.antt =====
-- About the calls of repository.py while a worker holds a task: what leaves its lease alone.
pub mod Steps
pub mod Turns
use model_courier.Prelude.{
  ℕ, ◌+◌, ◌≤◌, ◌<◌, min, ◌≡◌, refl, sym, ap, subst, ◌∙◌, inl, inr, String, Bool, true, false, not,
  Option, none, some, List, [], ◌∷◌, ◌++◌, arith, eq_iff, eqb, leb, holds, ◌==◌, ◌&&◌,
  if◌then◌else◌, Bool-cases, Option-cases,
}
use model_courier.Prelude.Tables.{find, modify, select_one}
use model_courier.Prelude.Tables.Laws.{find-modify, find-Pointwise, find-append_some}
use model_courier.Prelude.Tables.Keys.{find-modify_ne}
use model_courier.Contracts.{
  ArtifactRef, CapabilityManifest, TaskEnvelope, ErrorEnvelope, ProviderResult,
}
use model_courier.Server.Exec.{Result, ok, err, Result-cases}
use model_courier.Server.Db.{Db, TaskRow, Status, running}
use model_courier.Server.Repository.{
  Lease, task_key, find_task, modify_task, is_uploading, is_held, is_terminal, lease_seconds,
  same_key,
}
use model_courier.Server.Repository.Submit.{
  create_uploading, uploading_row, finalize_and_enqueue, finalize_row, measured, input_row, expire,
  enqueue,
}
use model_courier.Server.Repository.Matching.{matches}
use model_courier.Server.Repository.Claim.{claim_next, claim_first, candidates, is_ready, granted}
use model_courier.Server.Repository.Leases.{
  start, heartbeat, fail, publish_result, prolong, give_back, publish, is_current, check_lease,
  check_row,
}
use model_courier.Server.Repository.Sweep.{requeue_expired, cancel, is_owned}
use model_courier.Server.Lifecycle.Rows.{Move-SameRequest}
use model_courier.Server.Lifecycle.Moves.{
  Checked, under_lease, under_lease_cases, swept, swept-Move, sweep_tasks-Pointwise,
  publish_result-under_lease,
}
use model_courier.Server.Lifecycle.Effects.{insert_task_cases, insert_artifact_cases}

abbrev pub lasts : Option ℕ → ℕ → Bool
lasts none until = false
lasts (some t) until = leb until t

-- An UPDATE with one more test keeps the key if the UPDATE does.
pub if-id : (b : Bool) (x y : TaskRow) → y.id ≡ x.id → (if b then y else x).id ≡ x.id
if-id true x y e = e
if-id false x y e = refl

module _ (sha256 : String → String) (deadline : ℕ) where
  -- The row is held under the lease's columns, and the lease lasts until a time at least, which is
  -- within the task's deadline.
  pub record Holds (lease : Lease) (until : ℕ) (x : TaskRow) : Type 0 where
    pub owner : (x.owner_id == lease.owner_id) ≡ true
    pub worker : holds x.lease_owner lease.worker_id ≡ true
    pub generation : eqb x.lease_generation lease.lease_generation ≡ true
    pub token : holds x.lease_token_hash (sha256 lease.lease_token) ≡ true
    pub held : is_held x.status ≡ true
    pub lasting : lasts x.lease_until until ≡ true
    pub due_at : x.execution_deadline ≡ deadline
    pub in_time : until ≤ deadline

  -- The task of the lease is in the table, and held so.
  abbrev pub Kept : Lease → ℕ → Db → Type 0
  Kept lease until db = (x : TaskRow) × (find_task lease.task_id db ≡ some x) × Holds lease until x

  module _ (lease : Lease) (until now : ℕ) where
    pub prolong-Holds :
        (s : Status) (x : TaskRow)
        → is_held s ≡ true
        → until ≤ now + lease_seconds
        → Holds lease until x
        → Holds lease until (prolong s (min (now + lease_seconds) x.execution_deadline) now x)
    prolong-Holds s x e u h = ground arith

    pub swept-Holds : (x : TaskRow) → now < until → Holds lease until x → swept now x ≡ x
    swept-Holds x t h = ground arith

    Holds-unready : (x : TaskRow) → Holds lease until x → is_ready now x ≡ false
    Holds-unready x h = ground arith

    pub Kept-tasks :
        (db after : Db) → after.tasks ≡ db.tasks → Kept lease until db → Kept lease until after
    Kept-tasks db after e (x, found, h) = (x, ap (find task_key lease.task_id) e ∙ found, h)

    Holds-waiting : (x : TaskRow) → is_uploading x.status ≡ true → Holds lease until x → ⊥
    Holds-waiting x e h = ground arith

    -- An UPDATE of the row that a key finds.
    pub Kept-modify :
        (j : String) (f : TaskRow → TaskRow) (row : TaskRow) (db : Db)
        → ((x : TaskRow) → (f x).id ≡ x.id)
        → find_task j db ≡ some row
        → ((j == lease.task_id) ≡ true → Holds lease until row → Holds lease until (f row))
        → Kept lease until db
        → Kept lease until (modify_task j f db)
    Kept-modify j f row db keep e move (x, found, h) = elim (Bool-cases (j == lease.task_id)) [
      | inr n ↦ (x, find-modify_ne task_key j lease.task_id f keep n db.tasks ∙ found, h)
      | inl t ↦
          let same : j ≡ lease.task_id = (eq_iff j lease.task_id).0 t in
          let here : row ≡ x = cc in
          (
            f row,
            subst (λ k. find_task k (modify_task j f db) ≡ some (f row)) same
                (find-modify task_key j f keep db.tasks row e),
            move t (subst (Holds lease until) (sym here) h),
          )
    ]

    pub Kept-under_lease :
        (other : Lease) (g : TaskRow → TaskRow → TaskRow) (db : Db)
        → ((row x : TaskRow) → (g row x).id ≡ x.id)
        → ((row : TaskRow)
            → is_current sha256 other now row ≡ true
            → (other.task_id == lease.task_id) ≡ true
            → Holds lease until row
            → Holds lease until (g row row))
        → Kept lease until db
        → Kept lease until (under_lease sha256 other now g db).1
    Kept-under_lease other g db keep move k =
        under_lease_cases sha256 other now (λ o. Kept lease until o.1) g keep db (λ e h. k)
          (λ row c.
            Kept-modify other.task_id (g row) row db (keep row) c.found (move row c.current) k)

    pub Kept-claim_first :
        (w : String) (cs : List CapabilityManifest) (token : String) (rows : List TaskRow) (db : Db)
        → Kept lease until db
        → Kept lease until (claim_first sha256 w cs token now rows db).1
    unfolding claim_first
    Kept-claim_first w cs token [] db k = k
    Kept-claim_first w cs token (row ∷ rows) db k = elim (Option-cases (matches row cs)) [
      | inl m ↦ rw (m, claim_first) (Kept-claim_first w cs token rows db k)
      | inr (c, m) ↦
          rw (m, claim_first)
            (elim (Option-cases (find_task row.id db)) [
              | inl n ↦ rw n (Kept-claim_first w cs token rows db k)
              | inr (y, n) ↦ elim (Bool-cases (is_ready now y)) [
                | inr x ↦ rw (n, x) (Kept-claim_first w cs token rows db k)
                | inl x ↦
                    rw (n, x)
                      (Kept-modify row.id _ y db (λ r. if-id (is_ready now r) r _ refl) n
                        (λ t h. absurd (let e = Holds-unready y h in cc)) k)
              ]
            ])
    ]

    pub Kept-sweep :
        (db : Db) → now < until → Kept lease until db → Kept lease until (requeue_expired now db).1
    unfolding requeue_expired
    Kept-sweep db t (x, found, h) =
        let R = λ (a b : TaskRow). (b.id ≡ a.id) × (Holds lease until a → b ≡ a) in
        let (y, there, r) =
          find-Pointwise task_key R (λ a b r. r.0) lease.task_id db.tasks _ x
            (sweep_tasks-Pointwise R now
              (λ a. ((Move-SameRequest a _ (swept-Move now a)).id, λ e. swept-Holds a t e))
              db.tasks)
            found in
        (y, there, subst (Holds lease until) (sym (r.1 h)) h)

    Kept-finalize_row :
        (i t : String) (a : ArtifactRef) (size : ℕ × String) (g : String) (p : Option String)
        (row : TaskRow) (db : Db)
        → find_task t db ≡ some row
        → Kept lease until db
        → Kept lease until (finalize_row i t a size g p now row db).1
    unfolding finalize_row
    Kept-finalize_row i t a size g p row db h k = elim (Bool-cases (row.request_digest == g)) [
      | inr x ↦ rw x k
      | inl x ↦ rw x (elim (Bool-cases (is_uploading row.status)) [
        | inr u ↦ rw u k
        | inl u ↦ rw u (elim (Bool-cases (leb row.expires_at now)) [
          | inl late ↦
              rw late
                (Kept-modify t _ row db (λ r. refl) h (λ _ e. absurd (Holds-waiting row u e)) k)
          | inr early ↦ rw early (elim (insert_artifact_cases (input_row i t row a size p now) db) [
            | inl r ↦ rw r k
            | inr r ↦ rw r (
                Kept-modify t _ row db (λ r. if-id (is_uploading r.status) r _ refl) h
                  (λ _ e. absurd (Holds-waiting row u e)) k)
          ])
        ])
      ])
    ]

    pub Kept-finalize :
        (i t : String) (a : ArtifactRef) (g : String) (p : Option String) (db : Db)
        → Kept lease until db
        → Kept lease until (finalize_and_enqueue i t a g p now db).1
    unfolding finalize_and_enqueue
    Kept-finalize i t a g p db k = elim (Result-cases (measured a)) [
      | inr (e, m) ↦ rw m k
      | inl (size, m) ↦ rw m (elim (Option-cases (find_task t db)) [
        | inl n ↦ rw n k
        | inr (row, n) ↦ rw n (Kept-finalize_row i t a size g p row db n k)
      ])
    ]

    pub Kept-create :
        (i o d : String) (e : TaskEnvelope) (g : String) (db : Db)
        → Kept lease until db
        → Kept lease until (create_uploading i o d e g now db).1
    unfolding create_uploading
    Kept-create i o d e g db (x, found, h) =
        elim (Option-cases (select_one (same_key o d e.idempotency_key) db.tasks)) [
          | inr (row, s) ↦ rw s (elim (Bool-cases (row.request_digest == g)) [
            | inl t ↦ rw t (x, found, h)
            | inr t ↦ rw t (x, found, h)
          ])
          | inl s ↦ rw s (elim (insert_task_cases (uploading_row i o d e g now) db) [
            | inl r ↦ rw r (x, found, h)
            | inr (r, free) ↦ rw r (
              x,
              find-append_some task_key lease.task_id db.tasks (uploading_row i o d e g now ∷ []) x
                  found,
              h,
            )
          ])
        ]

    pub Kept-cancel :
        (o t : String) (db : Db)
        → (t == lease.task_id) ≡ false
        → Kept lease until db
        → Kept lease until (cancel o t now db).1
    unfolding cancel
    Kept-cancel o t db n (x, found, h) = elim (Option-cases (select_one (is_owned o t) db.tasks)) [
      | inl s ↦ rw s (x, found, h)
      | inr (row, s) ↦ rw s (elim (Bool-cases (is_terminal row.status)) [
        | inl e ↦ rw e (x, found, h)
        | inr e ↦ rw e (
          x,
          find-modify_ne task_key t lease.task_id _ (λ r. if-id (r.owner_id == o) r _ refl) n
                db.tasks
              ∙ found,
          h,
        )
      ])
    ]
