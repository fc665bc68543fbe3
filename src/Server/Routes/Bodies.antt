-- ===== src/Server/Routes/Bodies.antt =====
-- schemas.py: the bodies of the workers' requests, and the requests as the handlers' signatures in
-- routes_workers.py have them: first the principal, then the body. The detail of the status 422 lists
-- the errors, and is left out.
pub mod Failures
use model_courier.Prelude.{
  ℕ, String, Bool, Option, none, some, List, length, leb, ◌&&◌, if◌then◌else◌,
}
use model_courier.Contracts.{CapabilityManifest, ErrorEnvelope}
use model_courier.Contracts.Checks.{is_within, are_all, is_capability, is_error}
use model_courier.Server.Db.{Db}
use model_courier.Server.Tokens.{Principal}
use model_courier.Server.Routes.{Reply, answers, refuses}
use model_courier.Server.Routes.Bearer.{worker_principal}
use model_courier.Server.Routes.Workers.{
  LeaseRequest, is_lease_request, Progress, register_worker, start_worker_task,
  heartbeat_worker_task, fail_worker_task,
}

abbrev pub is_worker_failure : LeaseRequest → ErrorEnvelope → Bool
is_worker_failure r e = is_lease_request r && is_error e

-- Of the capabilities as they have been stripped.
abbrev pub is_worker_registration : List CapabilityManifest → Bool
is_worker_registration cs = leb 1 (length cs) && leb (length cs) 64 && are_all is_capability cs

-- A handler behind the test of the token and that of the body.
abbrev pub received :
    {A : Type 0} → Reply Principal → Bool → (Principal → Db → Reply A × Db) → Db → Reply A × Db
received (refuses status detail) valid handler db = (refuses status detail, db)
received (answers p) valid handler db = if valid then handler p db else (refuses 422 "", db)

module _ (sha256 : String → String) where
  unfoldable pub post_register :
      Option String → List CapabilityManifest → ℕ → Db → Reply (List CapabilityManifest) × Db
  post_register authorization cs now db =
      received (worker_principal sha256 authorization db) (is_worker_registration cs)
        (λ p. register_worker cs p now) db

  unfoldable pub post_start : Option String → String → LeaseRequest → ℕ → Db → Reply Progress × Db
  post_start authorization task_id request now db =
      received (worker_principal sha256 authorization db) (is_lease_request request)
        (λ p. start_worker_task sha256 task_id request p now) db

  unfoldable pub post_heartbeat :
      Option String → String → LeaseRequest → ℕ → Db → Reply Progress × Db
  post_heartbeat authorization task_id request now db =
      received (worker_principal sha256 authorization db) (is_lease_request request)
        (λ p. heartbeat_worker_task sha256 task_id request p now) db

  unfoldable pub post_fail :
      Option String → String → LeaseRequest → ErrorEnvelope → ℕ → Db → Reply Progress × Db
  post_fail authorization task_id request error now db =
      received (worker_principal sha256 authorization db) (is_worker_failure request error)
        (λ p. fail_worker_task sha256 task_id request error p now) db
