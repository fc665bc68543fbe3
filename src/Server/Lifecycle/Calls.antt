-- ===== src/Server/Lifecycle/Calls.antt =====
-- The calls of repository.py as one step function, and what a step does to the table of tasks.
use model_courier.Prelude.{ℕ, ◌≡◌, refl, String, Bool, List, [], ◌∷◌, ◌++◌, Option, none}
use model_courier.Prelude.Tables.{find}
use model_courier.Prelude.Tables.Laws.{IsKeyed}
use model_courier.Contracts.{
  ArtifactRef, CapabilityManifest, TaskEnvelope, ErrorEnvelope, ProviderResult,
}
use model_courier.Server.Db.{Db, TaskRow}
use model_courier.Server.Repository.{Lease, task_key}
use model_courier.Server.Repository.Identities.{
  ensure_owner, ensure_device, ensure_worker, update_worker_capabilities,
}
use model_courier.Server.Repository.Submit.{
  create_uploading, uploading_row, finalize_and_enqueue, remove_input_artifacts,
}
use model_courier.Server.Repository.Claim.{claim_next}
use model_courier.Server.Repository.Leases.{start, heartbeat, fail, publish_result}
use model_courier.Server.Repository.Sweep.{requeue_expired, cancel}
use model_courier.Server.Lifecycle.{IsNew}
use model_courier.Server.Lifecycle.Moves.{
  Moved, Moved-refl, start-Moved, heartbeat-Moved, fail-Moved, publish_result-Moved,
  requeue_expired-Moved,
}
use model_courier.Server.Lifecycle.Effects.{
  create_uploading_cases, tasks-ensure_owner, tasks-ensure_device, tasks-ensure_worker,
  tasks-update_capabilities, tasks-remove_inputs, finalize-Moved, cancel-Moved, claim-Moved,
}

-- Every method of TaskRepository that writes.
pub data Call : Type 0 where
  ensures_owner : (owner_id : String) → Call
  ensures_device : (owner_id device_id token_hash : String) → Call
  ensures_worker : (owner_id worker_id token_hash : String) → List CapabilityManifest → Call
  updates_capabilities : (worker_id : String) → List CapabilityManifest → Call
  creates : (new_id owner_id device_id : String) → TaskEnvelope → (request_digest : String) → Call
  finalizes :
      (new_id task_id : String) → ArtifactRef → (request_digest : String) → Option String → Call
  claims : (worker_id : String) → List CapabilityManifest → (token : String) → Call
  starts : Lease → Call
  beats : Lease → Call
  gives_back : Lease → ErrorEnvelope → Bool → Call
  publishes_result : Lease → ProviderResult → Call
  removes_inputs : (owner_id task_id : String) → Call
  sweeps : Call
  cancels_task : (owner_id task_id : String) → Call

module _ (sha256 : String → String) where
  unfoldable pub step : ℕ → Call → Db → Db
  step now (ensures_owner o) db = ensure_owner o now db
  step now (ensures_device o d h) db = (ensure_device o d h now db).1
  step now (ensures_worker o w h cs) db = (ensure_worker o w h cs now db).1
  step now (updates_capabilities w cs) db = (update_worker_capabilities w cs now db).1
  step now (creates i o d e g) db = (create_uploading i o d e g now db).1
  step now (finalizes i t a g p) db = (finalize_and_enqueue i t a g p now db).1
  step now (claims w cs token) db = (claim_next sha256 w cs token now db).1
  step now (starts l) db = (start sha256 l now db).1
  step now (beats l) db = (heartbeat sha256 l now db).1
  step now (gives_back l e r) db = (fail sha256 l e r now db).1
  step now (publishes_result l r) db = (publish_result sha256 l r now db).1
  step now (removes_inputs o t) db = (remove_input_artifacts o t db).1
  step now sweeps db = (requeue_expired now db).1
  step now (cancels_task o t) db = (cancel o t now db).1

  -- A history is a list of calls, each at a time that the caller chose.
  unfoldable pub run : List (ℕ × Call) → Db → Db
  run [] db = db
  run ((now, c) ∷ history) db = run history (step now c db)

-- A step moves the rows that are there, or adds a new one under a key of its own.
pub data Evolution (now : ℕ) (xs ys : List TaskRow) : Type 0 where
  moves : Moved now xs ys → Evolution now xs ys
  adds :
      (x : TaskRow)
      → IsNew now x
      → find task_key x.id xs ≡ none
      → ys ≡ xs ++ x ∷ []
      → Evolution now xs ys

create-Evolution :
    (i o d : String) (e : TaskEnvelope) (g : String) (now : ℕ) (db : Db)
    → Evolution now db.tasks (create_uploading i o d e g now db).1.tasks
create-Evolution i o d e g now db =
    create_uploading_cases (Evolution now db.tasks) i o d e g now db
      (moves (Moved-refl now db.tasks))
      (λ free.
        adds (uploading_row i o d e g now)
          (record { owner_id = o; device_id = d; envelope = e; digest = g; made = refl }) free refl)

still : (now : ℕ) (xs ys : List TaskRow) → ys ≡ xs → Moved now xs ys
still now xs ys e = rw e (Moved-refl now xs)

-- A call makes a task, or it only moves rows.
pub data StepView (sha256 : String → String) : Call → Type 0 where
  creating : (i o d : String) (e : TaskEnvelope) (g : String) → StepView sha256 (creates i o d e g)
  moving :
      {c : Call}
      → ((now : ℕ) (db : Db)
          → IsKeyed task_key db.tasks
          → Moved now db.tasks (step sha256 now c db).tasks)
      → StepView sha256 c

pub step_view : (sha256 : String → String) (c : Call) → StepView sha256 c
unfolding step
step_view sha256 (creates i o d e g) = creating i o d e g
step_view sha256 (ensures_owner o) =
    moving (λ now db k. still now _ _ (tasks-ensure_owner now db o))
step_view sha256 (ensures_device o d h) =
    moving (λ now db k. still now _ _ (tasks-ensure_device now db o d h))
step_view sha256 (ensures_worker o w h cs) =
    moving (λ now db k. still now _ _ (tasks-ensure_worker now db o w h cs))
step_view sha256 (updates_capabilities w cs) =
    moving (λ now db k. still now _ _ (tasks-update_capabilities now db w cs))
step_view sha256 (finalizes i t a g p) = moving (λ now db k. finalize-Moved i t a g p now db)
step_view sha256 (claims w cs token) = moving (λ now db k. claim-Moved sha256 w cs token now db k)
step_view sha256 (starts l) = moving (λ now db k. start-Moved sha256 l now db)
step_view sha256 (beats l) = moving (λ now db k. heartbeat-Moved sha256 l now db)
step_view sha256 (gives_back l e r) = moving (λ now db k. fail-Moved sha256 l now e r db)
step_view sha256 (publishes_result l r) =
    moving (λ now db k. publish_result-Moved sha256 l now r db)
step_view sha256 (removes_inputs o t) =
    moving (λ now db k. still now _ _ (tasks-remove_inputs now db o t))
step_view sha256 sweeps = moving (λ now db k. requeue_expired-Moved now db)
step_view sha256 (cancels_task o t) = moving (λ now db k. cancel-Moved o t now db k)

view-Evolution :
    (sha256 : String → String) (now : ℕ) (c : Call) (db : Db)
    → StepView sha256 c
    → IsKeyed task_key db.tasks
    → Evolution now db.tasks (step sha256 now c db).tasks
unfolding step
view-Evolution sha256 now c db (creating i o d e g) k = create-Evolution i o d e g now db
view-Evolution sha256 now c db (moving m) k = moves (m now db k)

pub step-Evolution :
    (sha256 : String → String) (now : ℕ) (c : Call) (db : Db)
    → IsKeyed task_key db.tasks
    → Evolution now db.tasks (step sha256 now c db).tasks
step-Evolution sha256 now c db k = view-Evolution sha256 now c db (step_view sha256 c) k
