-- ===== src/Server/Routes/Foreign.antt =====
-- What the handlers of routes_workers.py make of a task that a worker of another owner has claimed: the
-- claim does not look at the owner, and every other call does.
use model_courier.Prelude.{
  ℕ, ◌≡◌, refl, sym, ap, subst, ◌∙◌, inl, inr, String, Bool, false, Option, some, List, ◌==◌, ◌&&◌,
  if◌then◌else◌, Bool-cases, Option-cases,
}
use model_courier.Prelude.Tables.{select_one}
use model_courier.Prelude.Tables.Laws.{IsKeyed}
use model_courier.Contracts.{CapabilityManifest, ErrorEnvelope, ProviderResult}
use model_courier.Contracts.Checks.{is_error}
use model_courier.Server.Exec.{ok, err, not_found}
use model_courier.Server.Db.{Db, TaskRow}
use model_courier.Server.Repository.{Lease, task_key, find_task}
use model_courier.Server.Repository.Submit.{input_artifact_path}
use model_courier.Server.Repository.Claim.{claim_next, candidates}
use model_courier.Server.Repository.Leases.{check_lease, check_row, is_current}
use model_courier.Server.Lifecycle.Calls.{Call, run}
use model_courier.Server.Lifecycle.Effects.{owned_found}
use model_courier.Server.Repository.Sweep.{is_owned}
use model_courier.Server.Lifecycle.History.{IsWellFormed, run-IsWellFormed, run-Later}
use model_courier.Server.Fencing.{Refuses, Refuses-check, not_current}
use model_courier.Server.Claiming.{claim_next-Picks, Picks-found}
use model_courier.Server.Tokens.{Principal}
use model_courier.Server.Storage.{Files}
use model_courier.Server.Routes.{Reply, answers, refuses, map_repository_error, server_error}
use model_courier.Server.Routes.Bearer.{worker_principal}
use model_courier.Server.Routes.Bodies.{is_worker_failure, post_start, post_heartbeat, post_fail}
use model_courier.Server.Routes.Workers.{
  LeaseRequest, is_lease_request, lease_from_request, start_worker_task, heartbeat_worker_task,
  fail_worker_task, publish_worker_result, download_input,
}
use model_courier.Server.Routes.Delivering.{after-IsWellFormed}

module _ (sha256 : String → String) (resolve : String → Option String) where
  abbrev conflict : {A : Type 0} → Reply A
  conflict = refuses 409 "lease is no longer current"

  -- The answer to a body: 409 if it is valid.
  abbrev shuts : {A : Type 0} → Bool → Reply A
  shuts valid = if valid then conflict else refuses 422 ""

  -- The worker can neither read the task's input, nor start, keep, fail or finish the task.
  pub record Shut (authorization : Option String) (task_id : String) (p : Principal) (at : ℕ)
      (db : Db) : Type 0 where
    pub start :
        (request : LeaseRequest)
        → post_start sha256 authorization task_id request at db
          ≡ (shuts (is_lease_request request), db)
    pub heartbeat :
        (request : LeaseRequest)
        → post_heartbeat sha256 authorization task_id request at db
          ≡ (shuts (is_lease_request request), db)
    pub fail :
        (request : LeaseRequest) (e : ErrorEnvelope)
        → post_fail sha256 authorization task_id request e at db
          ≡ (shuts (is_lease_request request && is_error e), db)
    pub publish :
        (request : LeaseRequest) (r : ProviderResult) (files : Files)
        → publish_worker_result sha256 resolve task_id r request p at
            (record { db = db; files = files })
          ≡ (
            if is_lease_request request then conflict else server_error,
            record { db = db; files = files },
          )
    pub download :
        (files : Files)
        → download_input resolve task_id p (record { db = db; files = files })
          ≡ refuses 404 "input artifact not found"

  check_foreign :
      (l : Lease) (now : ℕ) (db : Db) (x : TaskRow)
      → find_task l.task_id db ≡ some x
      → (x.owner_id == l.owner_id) ≡ false
      → check_lease sha256 l now db ≡ err not_current
  unfolding check_lease check_row is_current
  check_foreign l now db x e n = rw (e, check_lease, check_row, n) refl

  no_input :
      (t : String) (p : Principal) (db : Db) (x : TaskRow)
      → IsKeyed task_key db.tasks
      → find_task t db ≡ some x
      → (x.owner_id == p.owner_id) ≡ false
      → input_artifact_path p.owner_id t db ≡ err (not_found "input artifact not found")
  unfolding input_artifact_path
  no_input t p db x keyed e n = elim (Option-cases (select_one (is_owned p.owner_id t) db.tasks)) [
    | inl s ↦ rw (s, input_artifact_path) refl
    | inr (y, s) ↦
        let (found, own) = owned_found p.owner_id t db y keyed s in
        absurd (let same : x ≡ y = cc in let m = rw same at n in cc)
  ]

  foreign-Shut :
      (authorization : Option String) (t : String) (p : Principal) (at : ℕ) (db : Db) (x : TaskRow)
      → IsKeyed task_key db.tasks
      → find_task t db ≡ some x
      → (x.owner_id == p.owner_id) ≡ false
      → worker_principal sha256 authorization db ≡ answers p
      → Shut authorization t p at db
  unfolding post_start post_heartbeat post_fail start_worker_task heartbeat_worker_task
      fail_worker_task publish_worker_result download_input map_repository_error
  foreign-Shut authorization t p at db x keyed e n admitted =
      let refused : (request : LeaseRequest)
          → Refuses sha256 (lease_from_request request p t) at db =
        λ request.
          let l = lease_from_request request p t in
          Refuses-check sha256 l at db (check_foreign l at db x e n) in
      record {
        start = λ request. elim (Bool-cases (is_lease_request request)) [
          | inl v ↦ rw (admitted, v, post_start) (rw (refused request).start refl)
          | inr v ↦ rw (admitted, v, post_start) refl
        ];
        heartbeat = λ request. elim (Bool-cases (is_lease_request request)) [
          | inl v ↦ rw (admitted, v, post_heartbeat) (rw (refused request).heartbeat refl)
          | inr v ↦ rw (admitted, v, post_heartbeat) refl
        ];
        fail = λ request error. elim (Bool-cases (is_worker_failure request error)) [
          | inl v ↦
              rw (admitted, v, post_fail) (rw ((refused request).fail error error.retryable) refl)
          | inr v ↦ rw (admitted, v, post_fail) refl
        ];
        publish = λ request r files. elim (Bool-cases (is_lease_request request)) [
          | inl v ↦ rw (v, publish_worker_result) (rw ((refused request).publish_result r) refl)
          | inr v ↦ rw (v, publish_worker_result) refl
        ];
        download = λ files. rw (no_input t p db x keyed e n) refl;
      }

  module _ (p : Principal) (cs : List CapabilityManifest) (token : String) (now : ℕ) (db after : Db)
      (lease : Lease) where
    -- On a well-formed database, after a claim for a worker that returns a lease on a task of
    -- another owner, and any history of calls, a request that identifies the worker gets nothing
    -- more of the task: a start, a heartbeat and a failure are answered by 409 if their body is
    -- valid and by 422 if not, a result by 409, or by 500 if the generation or the token that it
    -- comes with is out of bounds, the download of the input by 404, and none of them changes
    -- anything.
    pub claim_next-Shut :
        (authorization : Option String) (history : List (ℕ × Call)) (at : ℕ)
        → IsWellFormed db
        → claim_next sha256 p.subject_id cs token now db ≡ (ok (some lease), after)
        → (lease.owner_id == p.owner_id) ≡ false
        → worker_principal sha256 authorization (run sha256 history after) ≡ answers p
        → Shut authorization lease.task_id p at (run sha256 history after)
    claim_next-Shut authorization history at v e n admitted =
        let picked = claim_next-Picks sha256 p.subject_id cs token now db lease after v.keyed e in
        let found =
          Picks-found sha256 p.subject_id cs token now db (candidates now db) lease after picked in
        let owner : picked.row.owner_id ≡ lease.owner_id =
          ap (λ (l : Lease). l.owner_id) (sym picked.lease_is) in
        let good = after-IsWellFormed sha256 p.subject_id cs token now db after lease v e in
        let (x, there, later) = run-Later sha256 history after lease.task_id _ good.keyed found in
        let foreign : (x.owner_id == p.owner_id) ≡ false =
          subst (λ o. (o == p.owner_id) ≡ false) (sym (later.request.owner_id ∙ owner)) n in
        foreign-Shut authorization lease.task_id p at (run sha256 history after) x
          (run-IsWellFormed sha256 history after good).keyed there foreign admitted
