-- ===== src/Server/Repository/Claim.antt =====
-- repository.py: `claim_next`. `secrets.token_urlsafe(32)` is the argument `token`: one claim grants
-- one lease at most, and SHA-256 of the UTF-8 bytes is the parameter `sha256`.
use model_courier.Prelude.{
  ℕ, ◌+◌, min, String, Bool, false, Option, none, some, List, [], ◌∷◌, take, leb, ltb, ◌==◌, ◌&&◌,
  if◌then◌else◌,
}
use model_courier.Prelude.Tables.{select, order_by, update}
use model_courier.Contracts.{CapabilityManifest}
use model_courier.Server.Exec.{Exec, ok}
use model_courier.Server.Db.{Db, TaskRow, WorkerRow, leased}
use model_courier.Server.Repository.{
  Lease, lease_seconds, is_queued, find_task, modify_task, add_event,
}
use model_courier.Server.Repository.Matching.{matches}

-- `status = 'queued' AND next_attempt_at <= ?`
abbrev pub is_ready : ℕ → TaskRow → Bool
is_ready now r = is_queued r.status && leb r.next_attempt_at now

-- The rows that a claim looks at: the 32 oldest that are ready and not past their expiry.
unfoldable pub candidates : ℕ → Db → List TaskRow
candidates now db = take 32 (
    order_by (λ (r : TaskRow). r.created_at)
      (select (λ (r : TaskRow). is_ready now r && ltb now r.expires_at) db.tasks))

-- `cursor.rowcount` of an UPDATE by primary key with one more test
abbrev pub touches : (TaskRow → Bool) → Option TaskRow → Bool
touches p none = false
touches p (some r) = p r

-- The columns that the UPDATE of a claim sets.
abbrev pub granted : String → String → String → ℕ → ℕ → ℕ → TaskRow → TaskRow
granted worker_id token_hash capability_id generation until now r = record r {
  status = leased;
  attempt = r.attempt + 1;
  lease_owner = some worker_id;
  lease_generation = generation;
  lease_token_hash = some token_hash;
  lease_until = some until;
  bound_capability_id = some capability_id;
  updated_at = now;
}

abbrev pub lease_of : String → CapabilityManifest → String → ℕ → TaskRow → Lease
lease_of worker_id capability token now row = record {
  task_id = row.id;
  owner_id = row.owner_id;
  worker_id = worker_id;
  lease_generation = row.lease_generation + 1;
  lease_token = token;
  lease_until = min (now + lease_seconds) row.execution_deadline;
  capability_id = capability.capability_id;
  request = some row.request;
}

module _ (sha256 : String → String) where
  -- The UPDATE of the task, the event, and the worker's `last_seen_at`.
  abbrev pub grant : String → CapabilityManifest → String → ℕ → TaskRow → Db → Db
  grant worker_id capability token now row db =
      let claimed =
        add_event
          (record {
            task_id = row.id;
            event_type = "leased";
            details = some worker_id;
            created_at = now;
          })
          (modify_task row.id
            (λ r.
              if is_ready now r
              then granted worker_id (sha256 token) capability.capability_id
                  (row.lease_generation + 1) (min (now + lease_seconds) row.execution_deadline) now
                  r
              else r)
            db) in
      record claimed {
        workers =
            update (λ (w : WorkerRow). w.id == worker_id)
              (λ w. record w { last_seen_at = some now }) claimed.workers;
      }

  -- The loop over the rows of the SELECT.
  unfoldable pub claim_first :
      String → List CapabilityManifest → String → ℕ → List TaskRow → Exec Db (Option Lease)
  claim_first worker_id capabilities token now [] db = (ok none, db)
  claim_first worker_id capabilities token now (row ∷ rows) db = elim (matches row capabilities) [
    | none ↦ claim_first worker_id capabilities token now rows db
    | some capability ↦
        let skip = claim_first worker_id capabilities token now rows db in
        if touches (is_ready now) (find_task row.id db)
        then (
          ok (some (lease_of worker_id capability token now row)),
          grant worker_id capability token now row db,
        )
        else skip
  ]

  unfoldable pub claim_next : String → List CapabilityManifest → String → ℕ → Exec Db (Option Lease)
  claim_next worker_id capabilities token now db =
      claim_first worker_id capabilities token now (candidates now db) db
