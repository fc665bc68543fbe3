-- ===== src/Server/Lifecycle/Effects.antt =====
-- What the methods of repository.py that are not under a lease do to the table of tasks.
use model_courier.Prelude.{
  ℕ, ◌≡◌, refl, subst, ◌⊎◌, inl, inr, String, true, List, [], ◌∷◌, ◌++◌, Option, none, some, All,
  All-take, All-both, All-mono, arith, leb, Bool-cases, Option-cases, eq_of_test, ◌==◌, ◌<◌, leb→le,
  leb→gt,
}
use model_courier.Prelude.Tables.{select_one}
use model_courier.Prelude.Tables.Laws.{
  IsKeyed, found-All, select-All, select-All_test, order_by-All, select_one-test, select_one-All,
}
use model_courier.Contracts.{ArtifactRef, CapabilityManifest, TaskEnvelope}
use model_courier.Server.Exec.{ok, err, integrity, Result-cases}
use model_courier.Server.Db.{Db, TaskRow, ArtifactRow}
use model_courier.Server.Repository.{
  task_key, find_task, is_uploading, is_terminal, same_key, insert_task, insert_artifact,
}
use model_courier.Server.Repository.Identities.{
  ensure_owner, ensure_device, ensure_worker, update_worker_capabilities,
}
use model_courier.Server.Repository.Submit.{
  create_uploading, uploading_row, finalize_and_enqueue, finalize_row, remove_input_artifacts,
  measured, input_row,
}
use model_courier.Server.Repository.Matching.{matches}
use model_courier.Server.Repository.Claim.{claim_next, claim_first, candidates, is_ready}
use model_courier.Server.Repository.Sweep.{cancel, is_owned}
use model_courier.Server.Lifecycle.{expires, enqueues, grants, cancels}
use model_courier.Server.Lifecycle.Moves.{Moved, Moved-refl, modify-Moved}

pub insert_task_cases :
    (row : TaskRow) (db : Db)
    → (insert_task row db ≡ (err integrity, db))
      ⊎ ((insert_task row db ≡ (ok tt, record db { tasks = db.tasks ++ row ∷ [] }))
          × (find_task row.id db ≡ none))
unfolding insert_task
insert_task_cases row db = ground arith

pub insert_artifact_cases :
    (a : ArtifactRow) (db : Db)
    → (insert_artifact a db ≡ (err integrity, db))
      ⊎ (insert_artifact a db ≡ (ok tt, record db { artifacts = db.artifacts ++ a ∷ [] }))
unfolding insert_artifact
insert_artifact_cases a db = ground arith

-- A submission leaves the tasks as they are, or adds its row under a free id.
pub create_uploading_cases {κ} :
    (P : List TaskRow → Type κ) (i o d : String) (e : TaskEnvelope) (g : String) (now : ℕ) (db : Db)
    → P db.tasks
    → (find_task i db ≡ none → P (db.tasks ++ uploading_row i o d e g now ∷ []))
    → P (create_uploading i o d e g now db).1.tasks
unfolding create_uploading
create_uploading_cases P i o d e g now db old new =
    elim (Option-cases (select_one (same_key o d e.idempotency_key) db.tasks)) [
      | inr (row, h) ↦
          rw h (elim (Bool-cases (row.request_digest == g)) [ inl t ↦ rw t old | inr t ↦ rw t old ])
      | inl h ↦ rw h (elim (insert_task_cases (uploading_row i o d e g now) db) [
        | inl r ↦ rw r old
        | inr (r, free) ↦ rw r (new free)
      ])
    ]

finalize_row-Moved :
    (i t : String) (a : ArtifactRef) (size : ℕ × String) (g : String) (p : Option String) (now : ℕ)
    (row : TaskRow) (db : Db)
    → find_task t db ≡ some row
    → Moved now db.tasks (finalize_row i t a size g p now row db).1.tasks
unfolding finalize_row
finalize_row-Moved i t a size g p now row db h = elim (Bool-cases (row.request_digest == g)) [
  | inr x ↦ rw x (Moved-refl now db.tasks)
  | inl x ↦ rw x (elim (Bool-cases (is_uploading row.status)) [
    | inr u ↦ rw u (Moved-refl now db.tasks)
    | inl u ↦ rw u (elim (Bool-cases (leb row.expires_at now)) [
      | inl late ↦
          rw late
            (modify-Moved now t _ row db.tasks h (expires (ground arith) (leb→le _ _ late) refl))
      | inr early ↦ rw early (elim (insert_artifact_cases (input_row i t row a size p now) db) [
        | inl r ↦ rw r (Moved-refl now db.tasks)
        | inr r ↦ rw r (
            modify-Moved now t _ row db.tasks h
              (rw u (enqueues (ground arith) (leb→gt _ _ early) refl)))
      ])
    ])
  ])
]

pub finalize-Moved :
    (i t : String) (a : ArtifactRef) (g : String) (p : Option String) (now : ℕ) (db : Db)
    → Moved now db.tasks (finalize_and_enqueue i t a g p now db).1.tasks
unfolding finalize_and_enqueue
finalize-Moved i t a g p now db = elim (Result-cases (measured a)) [
  | inr (e, m) ↦ rw m (Moved-refl now db.tasks)
  | inl (size, m) ↦ rw m (elim (Option-cases (find_task t db)) [
    | inl n ↦ rw n (Moved-refl now db.tasks)
    | inr (row, n) ↦ rw n (finalize_row-Moved i t a size g p now row db n)
  ])
]

-- The row that `id = ? AND owner_id = ?` selects is the row of the id.
pub owned_found :
    (o t : String) (db : Db) (row : TaskRow)
    → IsKeyed task_key db.tasks
    → select_one (is_owned o t) db.tasks ≡ some row
    → (find_task t db ≡ some row) × ((row.owner_id == o) ≡ true)
owned_found o t db row keyed n =
    let test = select_one-test (is_owned o t) db.tasks row n in
    let found =
      select_one-All _ (is_owned o t) db.tasks row n (found-All task_key db.tasks keyed) in
    let same : row.id ≡ t = eq_of_test row.id t (ground arith) in
    (subst (λ k. find_task k db ≡ some row) same found, ground arith)

pub cancel-Moved :
    (o t : String) (now : ℕ) (db : Db)
    → IsKeyed task_key db.tasks
    → Moved now db.tasks (cancel o t now db).1.tasks
unfolding cancel
cancel-Moved o t now db keyed = elim (Option-cases (select_one (is_owned o t) db.tasks)) [
  | inl n ↦ rw n (Moved-refl now db.tasks)
  | inr (row, n) ↦ rw n (elim (Bool-cases (is_terminal row.status)) [
    | inl x ↦ rw x (Moved-refl now db.tasks)
    | inr x ↦
        let (found, own) = owned_found o t db row keyed n in
        rw x (modify-Moved now t _ row db.tasks found (rw own (cancels x refl)))
  ])
]

-- A claim grants the first candidate that matches; the candidate is the row that its id finds.
claim_first-Moved :
    (sha256 : String → String) (w : String) (cs : List CapabilityManifest) (token : String)
    (now : ℕ) (db : Db) (rows : List TaskRow)
    → All (λ r. (find_task r.id db ≡ some r) × (now < r.expires_at)) rows
    → Moved now db.tasks (claim_first sha256 w cs token now rows db).1.tasks
unfolding claim_first
claim_first-Moved sha256 w cs token now db [] h = Moved-refl now db.tasks
claim_first-Moved sha256 w cs token now db (row ∷ rows) h = elim (Option-cases (matches row cs)) [
  | inl m ↦ rw (m, claim_first) (claim_first-Moved sha256 w cs token now db rows h.1)
  | inr (c, m) ↦
      rw (m, claim_first)
        (rw h.0.0 (elim (Bool-cases (is_ready now row)) [
          | inr x ↦ rw x (claim_first-Moved sha256 w cs token now db rows h.1)
          | inl x ↦ rw x (
              modify-Moved now row.id _ row db.tasks h.0.0 (
                rw x (
                  grants w (sha256 token) c.capability_id (ground arith) (ground arith) h.0.1
                    refl)))
        ]))
]

-- The candidates of a claim are rows of the table that have not expired.
pub candidates-All :
    (now : ℕ) (db : Db)
    → IsKeyed task_key db.tasks
    → All (λ r. (find_task r.id db ≡ some r) × (now < r.expires_at)) (candidates now db)
unfolding candidates
candidates-All now db keyed = All-take _ 32 _ (
    order_by-All _ _ _ (
      All-both _ _ _ (select-All _ _ db.tasks (found-All task_key db.tasks keyed))
        (All-mono _ _ _ (λ r t. ground arith) (select-All_test _ db.tasks))))

pub claim-Moved :
    (sha256 : String → String) (w : String) (cs : List CapabilityManifest) (token : String)
    (now : ℕ) (db : Db)
    → IsKeyed task_key db.tasks
    → Moved now db.tasks (claim_next sha256 w cs token now db).1.tasks
unfolding claim_next
claim-Moved sha256 w cs token now db keyed =
    claim_first-Moved sha256 w cs token now db (candidates now db) (candidates-All now db keyed)

module _ (now : ℕ) (db : Db) where
  pub tasks-ensure_owner : (o : String) → (ensure_owner o now db).tasks ≡ db.tasks
  unfolding ensure_owner
  tasks-ensure_owner o = ground arith

  pub tasks-ensure_device : (o d h : String) → (ensure_device o d h now db).1.tasks ≡ db.tasks
  unfolding ensure_device
  tasks-ensure_device o d h = ground arith

  pub tasks-ensure_worker :
      (o w h : String) (cs : List CapabilityManifest)
      → (ensure_worker o w h cs now db).1.tasks ≡ db.tasks
  unfolding ensure_worker
  tasks-ensure_worker o w h cs = ground arith

  pub tasks-update_capabilities :
      (w : String) (cs : List CapabilityManifest)
      → (update_worker_capabilities w cs now db).1.tasks ≡ db.tasks
  unfolding update_worker_capabilities
  tasks-update_capabilities w cs = ground arith

  pub tasks-remove_inputs : (o t : String) → (remove_input_artifacts o t db).1.tasks ≡ db.tasks
  unfolding remove_input_artifacts
  tasks-remove_inputs o t = ground arith
