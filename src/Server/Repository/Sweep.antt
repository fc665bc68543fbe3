-- ===== src/Server/Repository/Sweep.antt =====
-- repository.py: `requeue_expired` and `cancel`.
use model_courier.Prelude.{
  ℕ, ◌+◌, String, Bool, none, some, leb, ltb, ◌==◌, ◌&&◌, ◌||◌, due, if◌then◌else◌,
}
use model_courier.Prelude.Tables.{select_one, update, count}
use model_courier.Server.Exec.{Exec, not_found, pure, lift, or_raise, modify_state, ◌>>=◌, ◌>>◌}
use model_courier.Server.Db.{Db, TaskRow, Status, queued, failed, canceled, code_only}
use model_courier.Server.Repository.{
  TaskRecord, max_attempts, row_to_task, is_uploading, is_queued, is_held, is_terminal, modify_task,
  reselect,
}
use model_courier.Server.Repository.Submit.{expire}

-- The three statements of the sweep: the WHERE test and the columns that are set.
abbrev pub is_waiting : Status → Bool
is_waiting s = is_uploading s || is_queued s

abbrev pub is_overdue : ℕ → TaskRow → Bool
is_overdue now r = is_waiting r.status && leb r.expires_at now

abbrev pub is_lapsed : ℕ → TaskRow → Bool
is_lapsed now r = is_held r.status && due r.lease_until now

abbrev pub is_retriable : ℕ → TaskRow → Bool
is_retriable now r = is_lapsed now r && ltb now r.expires_at && ltb r.attempt max_attempts

abbrev pub is_exhausted : ℕ → TaskRow → Bool
is_exhausted now r = is_lapsed now r && (leb r.expires_at now || leb max_attempts r.attempt)

abbrev pub requeue : ℕ → TaskRow → TaskRow
requeue now r = record r {
  status = queued;
  next_attempt_at = now;
  lease_owner = none;
  lease_token_hash = none;
  lease_until = none;
  updated_at = now;
}

abbrev pub exhaust : ℕ → TaskRow → TaskRow
exhaust now r = record r {
  status = failed;
  error_json = some (code_only "attempts_exhausted");
  lease_owner = none;
  lease_token_hash = none;
  lease_until = none;
  updated_at = now;
}

-- `connection.total_changes` counts the rows that were changed since the connection was opened.
unfoldable pub requeue_expired : ℕ → Db → ℕ × Db
requeue_expired now db =
    let tasks₁ = update (is_overdue now) (expire now) db.tasks in
    let total₁ = count (is_overdue now) db.tasks in
    let tasks₂ = update (is_retriable now) (requeue now) tasks₁ in
    let total₂ = total₁ + count (is_retriable now) tasks₁ in
    let tasks₃ = update (is_exhausted now) (exhaust now) tasks₂ in
    let total₃ = total₂ + count (is_exhausted now) tasks₂ in
    (total₁ + total₂ + total₃, record db { tasks = tasks₃ })

abbrev pub cancel_row : ℕ → TaskRow → TaskRow
cancel_row now r = record r {
  status = canceled;
  lease_owner = none;
  lease_token_hash = none;
  lease_until = none;
  updated_at = now;
}

abbrev pub is_owned : String → String → TaskRow → Bool
is_owned owner_id task_id r = r.id == task_id && r.owner_id == owner_id

unfoldable pub cancel : String → String → ℕ → Exec Db TaskRecord
cancel owner_id task_id now = do
  row ← lift (λ db.
      or_raise (select_one (is_owned owner_id task_id) db.tasks) (not_found "task not found"))
  if is_terminal row.status then pure (row_to_task row) else do
    modify_state (modify_task task_id (λ r. if r.owner_id == owner_id then cancel_row now r else r))
    lift (reselect task_id)
