-- ===== src/Server/Routes/Bodies/Failures.antt =====
-- The report of a failure, from the worker's `except` clauses to the row of the task.
use model_courier.Prelude.{ℕ, none, ◌+◌, ◌≤◌, ◌<◌, ◌≡◌, ◌⊎◌, String, true, false, some}
use model_courier.Prelude.Tables.Laws.{Pointwise}
use model_courier.Contracts.{ErrorEnvelope}
use model_courier.Server.Db.{Db, TaskRow, queued, failed, envelope}
use model_courier.Server.Repository.{find_task}
use model_courier.Server.Lifecycle.Moves.{given_back}
use model_courier.Server.Routes.{Reply, answers}
use model_courier.Server.Routes.Workers.{Progress}

-- The row of a task before and after a failure of an attempt is reported.
pub record GivenBack (error : ErrorEnvelope) (at : ℕ) (x y : TaskRow) : Type 0 where
  pub next :
      ((error.retryable ≡ true)
        × (at < x.expires_at)
        × (y.status ≡ queued)
        × (((x.attempt ≤ 1) × (y.next_attempt_at ≡ at + 5))
            ⊎ ((x.attempt ≡ 2) × (y.next_attempt_at ≡ at + 30))))
      ⊎ (((error.retryable ≡ false) ⊎ ((3 ≤ x.attempt) ⊎ (x.expires_at ≤ at)))
          × (y.status ≡ failed)
          × (y.next_attempt_at ≡ at))
  pub attempt : y.attempt ≡ x.attempt
  pub error_json : y.error_json ≡ some (envelope error)
  pub lease_owner : y.lease_owner ≡ none
  pub lease_token_hash : y.lease_token_hash ≡ none
  pub lease_until : y.lease_until ≡ none

-- An answered report: the task's row before and after it, and the answer with the status of the latter.
pub record Reported (task_id : String) (error : ErrorEnvelope) (at : ℕ) (db : Db)
    (o : Reply Progress × Db) : Type 0 where
  pub before : TaskRow
  pub after : TaskRow
  pub found : find_task task_id db ≡ some before
  pub stored : find_task task_id o.1 ≡ some after
  pub answered :
      o.0 ≡ answers (record { task_id = task_id; status = after.status; attempt = after.attempt })
  pub given_back : GivenBack error at before after
  pub others : Pointwise (λ x y. (x.id ≡ task_id) ⊎ (y ≡ x)) db.tasks o.1.tasks
