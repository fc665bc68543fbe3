-- ===== src/Server/Routes/Delivering.antt =====
-- From the answer of a poll to the result that the device reads, through the handlers of
-- routes_workers.py and routes_devices.py.
use model_courier.Prelude.{
  ℕ, ◌+◌, ◌≤◌, ◌<◌, ◌≡◌, refl, sym, ap, subst, inl, inr, String, Bool, true, false, Option, some,
  List, [], ◌∷◌, arith, due, eq_iff, eq_refl, ◌==◌, ◌&&◌, Bool-cases, map,
}
use model_courier.Prelude.Texts.{size}
use model_courier.Prelude.Tables.{find, select, select_one, delete}
use model_courier.Prelude.Tables.Laws.{
  IsKeyed, IsKeyed-Pointwise, modify-Pointwise, find-modify, find-id,
}
use model_courier.Contracts.{CapabilityManifest, ProviderResult}
use model_courier.Server.Exec.{Result, ok}
use model_courier.Server.Db.{Db, TaskRow, succeeded}
use model_courier.Server.Repository.{
  Lease, is_succeeded, task_key, find_task, modify_task, row_to_task, result_retention_seconds,
}
use model_courier.Server.Repository.Submit.{get_task, remove_input_artifacts, is_input_of}
use model_courier.Server.Repository.Claim.{claim_next}
use model_courier.Server.Repository.Leases.{publish, check_lease}
use model_courier.Server.Lifecycle.Calls.{Call, run, step, claims}
use model_courier.Server.Lifecycle.History.{
  IsWellFormed, step-IsWellFormed, run-IsWellFormed, terminal-run,
}
use model_courier.Server.Claiming.{claim_next-Picks}
use model_courier.Server.Keeping.Steps.{presents}
use model_courier.Server.Keeping.Turns.{IsTimely, claim_next-check_lease, publish_current}
use model_courier.Server.Tokens.{Principal}
use model_courier.Server.Storage.{Files}
use model_courier.Server.Routes.{AppState, answers}
use model_courier.Server.Routes.Workers.{
  LeaseRequest, is_lease_request, Progress, lease_from_request, publish_worker_result, remove_all,
}
use model_courier.Server.Routes.Devices.{get_result}

-- `WHERE id = ? AND owner_id = ?`
abbrev is_of : String → String → TaskRow → Bool
is_of o t r = r.id == t && r.owner_id == o

select_one-find :
    (o t : String) (rows : List TaskRow) (x : TaskRow)
    → find task_key t rows ≡ some x
    → (x.owner_id == o) ≡ true
    → select_one (is_of o t) rows ≡ some x
unfolding find select_one
select_one-find o t [] x e own = absurd (ground arith)
select_one-find o t (r ∷ rows) x e own = elim (Bool-cases (r.id == t)) [
  | inl m ↦ let same : r ≡ x = ground (arith, rw m at e) in rw (m, same, own) refl
  | inr m ↦ rw m (select_one-find o t rows x (rw m at e) own)
]

get_task-find :
    (o t : String) (db : Db) (x : TaskRow)
    → find_task t db ≡ some x
    → (x.owner_id == o) ≡ true
    → get_task o t db ≡ ok (row_to_task x)
unfolding get_task
get_task-find o t db x e own = rw (select_one-find o t db.tasks x e own, get_task) refl

-- The inputs of a task that has succeeded go, and the tasks stay.
remove_input_artifacts-find :
    (o t : String) (db : Db) (x : TaskRow)
    → find_task t db ≡ some x
    → (x.owner_id == o) ≡ true
    → is_succeeded x.status ≡ true
    → remove_input_artifacts o t db ≡ (
      ok (map (λ a. a.path) (select (is_input_of t) db.artifacts)),
      record db { artifacts = delete (is_input_of t) db.artifacts },
    )
unfolding remove_input_artifacts
remove_input_artifacts-find o t db x e own s = rw (get_task-find o t db x e own, s) refl

get_result-find :
    (t : String) (d : Principal) (now : ℕ) (db : Db) (x : TaskRow) (r : ProviderResult)
    → find_task t db ≡ some x
    → (x.owner_id == d.owner_id) ≡ true
    → x.result_json ≡ some r
    → x.result_available ≡ true
    → is_succeeded x.status ≡ true
    → due x.result_expires_at now ≡ false
    → get_result t d now db ≡ answers (some r)
unfolding get_result
get_result-find t d now db x r e own j a s early =
    rw (get_task-find d.owner_id t db x e own, j, a, s, early) refl

module _ (sha256 : String → String) (resolve : String → Option String) where
  -- A result that is sent under a lease that passes the check is stored, and its inputs are released.
  publish_worker_result-done :
      (t : String) (request : LeaseRequest) (p : Principal) (r : ProviderResult) (now : ℕ)
      (s : AppState) (x : TaskRow)
      → find_task t s.db ≡ some x
      → (x.owner_id == p.owner_id) ≡ true
      → is_lease_request request ≡ true
      → check_lease sha256 (lease_from_request request p t) now s.db ≡ ok x
      → publish_worker_result sha256 resolve t r request p now s ≡ (
        answers (record { task_id = x.id; status = succeeded; attempt = x.attempt }),
        record {
          db = record (modify_task t (publish r now) s.db) {
            artifacts = delete (is_input_of t) s.db.artifacts;
          };
          files =
              remove_all resolve
                (map (λ a. a.path) (select (is_input_of t) s.db.artifacts))
                s.files;
        },
      )
  unfolding publish_worker_result
  publish_worker_result-done t request p r now s x found own valid current =
      let stored = find-modify task_key t (publish r now) (λ a. refl) s.db.tasks x found in
      rw valid (
        rw (publish_current sha256 (lease_from_request request p t) r now s.db x found current) (
          rw
            (remove_input_artifacts-find p.owner_id t (modify_task t (publish r now) s.db)
              (publish r now x) stored own refl)
            refl))

publish-IsKeyed :
    (t : String) (r : ProviderResult) (now : ℕ) (db : Db)
    → IsKeyed task_key db.tasks
    → IsKeyed task_key (modify_task t (publish r now) db).tasks
publish-IsKeyed t r now db k =
    IsKeyed-Pointwise task_key (λ x y. y.id ≡ x.id) (λ x y e. e) db.tasks _
      (modify-Pointwise task_key (λ x y. y.id ≡ x.id) t (publish r now) (λ x. refl) db.tasks
        (λ x e. refl))
      k

-- What the worker sends back of an answered poll.
abbrev pub request_of : Lease → LeaseRequest
request_of lease = record {
  lease_generation = lease.lease_generation;
  lease_token = lease.lease_token;
}

pub presents-lease_from_request :
    (lease : Lease) (p : Principal)
    → lease.owner_id ≡ p.owner_id
    → lease.worker_id ≡ p.subject_id
    → presents lease (lease_from_request (request_of lease) p lease.task_id) ≡ true
unfolding presents
presents-lease_from_request lease p o w = ground (
  arith,
  eq_refl lease.task_id,
  eq_refl lease.lease_token,
  (eq_iff p.owner_id lease.owner_id).1 (sym o),
  (eq_iff p.subject_id lease.worker_id).1 (sym w),
)

module _ (sha256 : String → String) (w : String) (cs : List CapabilityManifest) (token : String)
    (now : ℕ) (db after : Db) (lease : Lease) where
  pub claim_next-worker_id :
      IsKeyed task_key db.tasks
      → claim_next sha256 w cs token now db ≡ (ok (some lease), after)
      → lease.worker_id ≡ w
  claim_next-worker_id keyed e =
      ap (λ (l : Lease). l.worker_id)
        (claim_next-Picks sha256 w cs token now db lease after keyed e).lease_is

  pub request_of-is_lease_request :
      IsKeyed task_key db.tasks
      → claim_next sha256 w cs token now db ≡ (ok (some lease), after)
      → 16 ≤ size lease.lease_token
      → size lease.lease_token ≤ 256
      → is_lease_request (request_of lease) ≡ true
  request_of-is_lease_request keyed e low high =
      let picked = claim_next-Picks sha256 w cs token now db lease after keyed e in
      let generation : lease.lease_generation ≡ picked.row.lease_generation + 1 =
        ap (λ (l : Lease). l.lease_generation) picked.lease_is in
      ground arith

  pub after-IsWellFormed :
      IsWellFormed db
      → claim_next sha256 w cs token now db ≡ (ok (some lease), after)
      → IsWellFormed after
  unfolding step
  after-IsWellFormed v e =
      subst IsWellFormed (ap (λ (o : Result (Option Lease) × Db). o.1) e)
        (step-IsWellFormed sha256 now (claims w cs token) db v)

module _ (sha256 : String → String) (resolve : String → Option String) (p d : Principal)
    (cs : List CapabilityManifest) (token : String) (now : ℕ) (db after : Db) (lease : Lease)
    (row : TaskRow) where
  -- From a claim to the result that the device reads: on a well-formed database, after a claim for
  -- a worker that returns a lease on a task of the worker's owner, with a token of 16 to 256
  -- characters, and a history of calls in which the clock does not go back, the task is not
  -- canceled, no call under the grant reports a failure or a result, and the worker beats in time
  -- up to some end, all before the task's deadline, the handler that receives a result under the
  -- lease then answers that the task has succeeded, and after any further history the handler of
  -- the result answers each device of that owner with this result, as long as the retention time
  -- since then is not over.
  pub claim_next-get_result :
      (result : ProviderResult) (history later : List (ℕ × Call)) (end at : ℕ) (files : Files)
      → IsWellFormed db
      → claim_next sha256 p.subject_id cs token now db ≡ (ok (some lease), after)
      → find_task lease.task_id after ≡ some row
      → lease.owner_id ≡ p.owner_id
      → lease.owner_id ≡ d.owner_id
      → IsTimely lease row.execution_deadline now now history end
      → 16 ≤ size lease.lease_token
      → size lease.lease_token ≤ 256
      → at < end + result_retention_seconds
      → (progress : Progress) × (left : AppState) × (publish_worker_result sha256 resolve
            lease.task_id result
            (request_of lease)
            p
            end
            (record { db = run sha256 history after; files = files })
          ≡ (answers progress, left))
        × (progress.task_id ≡ lease.task_id)
        × (progress.status ≡ succeeded)
        × (get_result lease.task_id d at (run sha256 later left.db) ≡ answers (some result))
  claim_next-get_result result history later end at files v e f own reads timely low high early =
      let last = run sha256 history after in
      let s : AppState = record { db = last; files = files } in
      let l = lease_from_request (request_of lease) p lease.task_id in
      let (x, found, owner, current) =
        claim_next-check_lease sha256 p.subject_id cs token now db after lease row l history end
          (presents-lease_from_request lease p own
            (claim_next-worker_id sha256 p.subject_id cs token now db after lease v.keyed e))
          refl v e f timely in
      let is_own : (x.owner_id == p.owner_id) ≡ true =
        subst (λ o. (x.owner_id == o) ≡ true) own owner in
      let is_read : (x.owner_id == d.owner_id) ≡ true =
        subst (λ o. (x.owner_id == o) ≡ true) reads owner in
      let y = publish result end x in
      let db₁ = modify_task lease.task_id (publish result end) last in
      let db₂ = record db₁ { artifacts = delete (is_input_of lease.task_id) last.artifacts } in
      let keyed : IsKeyed task_key db₂.tasks =
        publish-IsKeyed lease.task_id result end last
          (run-IsWellFormed sha256 history after
            (after-IsWellFormed sha256 p.subject_id cs token now db after lease v e)).keyed in
      let stays : find_task lease.task_id (run sha256 later db₂) ≡ some y =
        terminal-run sha256 later db₂ lease.task_id y keyed
          (find-modify task_key lease.task_id (publish result end) (λ a. refl) last.tasks x found)
          refl in
      (
        record { task_id = x.id; status = succeeded; attempt = x.attempt },
        record {
          db = db₂;
          files =
              remove_all resolve
                (map (λ a. a.path) (select (is_input_of lease.task_id) last.artifacts)) files;
        },
        publish_worker_result-done sha256 resolve lease.task_id (request_of lease) p result end s x
            found is_own
            (request_of-is_lease_request sha256 p.subject_id cs token now db after lease v.keyed e
              low high)
            current,
        find-id task_key lease.task_id last.tasks x found,
        refl,
        get_result-find lease.task_id d at (run sha256 later db₂) y result stays is_read refl refl
            refl (ground arith),
      )
