-- ===== src/Server/Repository/Leases.antt =====
-- repository.py: `_check_lease` and the calls of a worker that holds a lease.
use model_courier.Prelude.{
  ℕ, ◌+◌, min, String, Bool, true, none, some, not, leb, ltb, eqb, ◌==◌, ◌&&◌, holds, is_none, due,
  if◌then◌else◌,
}
use model_courier.Contracts.{ErrorEnvelope, ProviderResult}
use model_courier.Server.Exec.{
  Exec, Result, ok, err, not_found, lease_conflict, lift, raise_if, modify_state, ◌>>=◌, ◌>>◌,
}
use model_courier.Server.Db.{Db, TaskRow, Status, running, succeeded, queued, failed, envelope}
use model_courier.Server.Repository.{
  TaskRecord, Lease, lease_seconds, max_attempts, result_retention_seconds, backoff, is_held,
  find_task, modify_task, reselect,
}

-- `UPDATE tasks SET status = ?, lease_until = ?`
abbrev pub prolong : Status → ℕ → ℕ → TaskRow → TaskRow
prolong status until now r = record r {
  status = status;
  lease_until = some until;
  updated_at = now;
}

abbrev pub extend : ℕ → ℕ → TaskRow → TaskRow
extend until now r = record r { lease_until = some until; updated_at = now }

-- `SET status = ?, next_attempt_at = ?, ..., error_json = ?`
abbrev pub give_back : Status → ℕ → ErrorEnvelope → ℕ → TaskRow → TaskRow
give_back status next_attempt_at error now r = record r {
  status = status;
  next_attempt_at = next_attempt_at;
  lease_owner = none;
  lease_token_hash = none;
  lease_until = none;
  error_json = some (envelope error);
  updated_at = now;
}

abbrev pub publish : ProviderResult → ℕ → TaskRow → TaskRow
publish result now r = record r {
  status = succeeded;
  result_json = some result;
  result_available = true;
  result_expires_at = some (now + result_retention_seconds);
  lease_owner = none;
  lease_token_hash = none;
  lease_until = none;
  updated_at = now;
}

-- `retryable and row["attempt"] < MAX_ATTEMPTS and row["expires_at"] > now`
abbrev pub should_retry : Bool → ℕ → TaskRow → Bool
should_retry retryable now row = retryable && ltb row.attempt max_attempts && ltb now row.expires_at

module _ (sha256 : String → String) where
  -- The test of `_check_lease`, turned round.
  unfoldable pub is_current : Lease → ℕ → TaskRow → Bool
  is_current lease now row =
      row.owner_id == lease.owner_id
      && holds row.lease_owner lease.worker_id
      && eqb row.lease_generation lease.lease_generation
      && holds row.lease_token_hash (sha256 lease.lease_token)
      && is_held row.status
      && not (is_none row.lease_until)
      && not (due row.lease_until now)

  unfoldable pub check_row : Lease → ℕ → TaskRow → Result TaskRow
  check_row lease now row =
      if not (is_current lease now row)
      then err (lease_conflict "lease is no longer current")
      else if leb row.execution_deadline now
      then err (lease_conflict "task execution deadline has passed")
      else ok row

  unfoldable pub check_lease : Lease → ℕ → Db → Result TaskRow
  check_lease lease now db = elim (find_task lease.task_id db) [
    | none ↦ err (not_found "task not found")
    | some row ↦ check_row lease now row
  ]

  unfoldable pub start : Lease → ℕ → Exec Db TaskRecord
  start lease now = do
    row ← lift (check_lease lease now)
    modify_state (
        modify_task lease.task_id
          (prolong running (min (now + lease_seconds) row.execution_deadline) now))
    lift (reselect lease.task_id)

  unfoldable pub heartbeat : Lease → ℕ → Exec Db TaskRecord
  heartbeat lease now = do
    row ← lift (check_lease lease now)
    let lease_until = min (now + lease_seconds) row.execution_deadline
    modify_state (modify_task lease.task_id (extend lease_until now))
    lift (reselect lease.task_id)

  unfoldable pub fail : Lease → ErrorEnvelope → Bool → ℕ → Exec Db TaskRecord
  fail lease error retryable now = do
    row ← lift (check_lease lease now)
    let retry = should_retry retryable now row
    let next_status = if retry then queued else failed
    let next_attempt_at = if retry then now + backoff row.attempt else now
    modify_state (modify_task lease.task_id (give_back next_status next_attempt_at error now))
    lift (reselect lease.task_id)

  unfoldable pub publish_result : Lease → ProviderResult → ℕ → Exec Db TaskRecord
  publish_result lease result now = do
    row ← lift (check_lease lease now)
    raise_if (not (is_held row.status)) (lease_conflict "task is not publishable")
    modify_state (modify_task lease.task_id (publish result now))
    lift (reselect lease.task_id)
