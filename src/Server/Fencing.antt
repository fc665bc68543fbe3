-- ===== src/Server/Fencing.antt =====
-- About the calls of repository.py under a lease that is no longer current.
use model_courier.Prelude.{ℕ, ◌<◌, ◌≡◌, refl, sym, ap, ◌∙◌, String, Bool, true, List, some, arith}
use model_courier.Prelude.Tables.Laws.{IsKeyed, IsKeyed-Pointwise, find-modify}
use model_courier.Contracts.{ErrorEnvelope, ProviderResult}
use model_courier.Server.Exec.{Result, Error, ok, err, lease_conflict}
use model_courier.Server.Db.{Db, TaskRow}
use model_courier.Server.Repository.{
  Lease, TaskRecord, task_key, find_task, row_to_task, is_terminal,
}
use model_courier.Server.Repository.Leases.{
  is_current, check_row, check_lease, start, heartbeat, fail, publish_result, publish,
}
use model_courier.Server.Lifecycle.Moves.{
  Checked, under_lease_cases, publish_result-under_lease, publish_result-Moved,
}
use model_courier.Server.Lifecycle.Rows.{Move-SameRequest}
use model_courier.Server.Lifecycle.Calls.{Call, run}
use model_courier.Server.Lifecycle.History.{run-Later, terminal-run}

abbrev pub not_current : Error
not_current = lease_conflict "lease is no longer current"

module _ (sha256 : String → String) where
  -- All four calls under the lease raise, and change nothing.
  pub record Refuses (lease : Lease) (now : ℕ) (db : Db) : Type 0 where
    pub start : start sha256 lease now db ≡ (err not_current, db)
    pub heartbeat : heartbeat sha256 lease now db ≡ (err not_current, db)
    pub fail :
        (e : ErrorEnvelope) (retryable : Bool)
        → fail sha256 lease e retryable now db ≡ (err not_current, db)
    pub publish_result :
        (r : ProviderResult) → publish_result sha256 lease r now db ≡ (err not_current, db)

  pub Refuses-check :
      (lease : Lease) (now : ℕ) (db : Db)
      → check_lease sha256 lease now db ≡ err not_current
      → Refuses lease now db
  unfolding start heartbeat fail publish_result
  Refuses-check lease now db e = record {
    start = rw e;
    heartbeat = rw e;
    fail = λ x r. rw e;
    publish_result = λ r. rw e;
  }

  check_stale :
      (lease : Lease) (now : ℕ) (db : Db) (x : TaskRow)
      → find_task lease.task_id db ≡ some x
      → lease.lease_generation < x.lease_generation
      → check_lease sha256 lease now db ≡ err not_current
  unfolding check_lease check_row is_current
  check_stale lease now db x e h = rw (e, check_lease) (ground arith)

  check_terminal :
      (lease : Lease) (now : ℕ) (db : Db) (x : TaskRow)
      → find_task lease.task_id db ≡ some x
      → is_terminal x.status ≡ true
      → check_lease sha256 lease now db ≡ err not_current
  unfolding check_lease check_row is_current
  check_terminal lease now db x e h = rw (e, check_lease) (ground arith)

  -- On a table with unique ids, a lease of an earlier generation than its task's is refused by
  -- every call, after any history of calls.
  pub superseded-Refuses :
      (lease : Lease) (now : ℕ) (history : List (ℕ × Call)) (db : Db) (x : TaskRow)
      → IsKeyed task_key db.tasks
      → find_task lease.task_id db ≡ some x
      → lease.lease_generation < x.lease_generation
      → Refuses lease now (run sha256 history db)
  superseded-Refuses lease now history db x keyed e h =
      let (y, found, later) = run-Later sha256 history db lease.task_id x keyed e in
      Refuses-check lease now _ (check_stale lease now _ y found (omega (arith, later.generation)))

  -- Every lease on a task in a terminal status is refused after any history.
  pub terminal-Refuses :
      (lease : Lease) (now : ℕ) (history : List (ℕ × Call)) (db : Db) (x : TaskRow)
      → IsKeyed task_key db.tasks
      → find_task lease.task_id db ≡ some x
      → is_terminal x.status ≡ true
      → Refuses lease now (run sha256 history db)
  terminal-Refuses lease now history db x keyed e t =
      Refuses-check lease now _
        (check_terminal lease now _ x (terminal-run sha256 history db lease.task_id x keyed e t) t)

  -- What a publication that succeeds leaves behind.
  pub record Published (lease : Lease) (result : ProviderResult) (now : ℕ) (db after : Db)
      (t : TaskRecord) : Type 0 where
    pub row : TaskRow
    pub checked : Checked sha256 lease now db row
    pub stored : find_task lease.task_id after ≡ some (publish result now row)
    pub returned : t ≡ row_to_task (publish result now row)

  publish_result-Published :
      (lease : Lease) (result : ProviderResult) (now : ℕ) (db after : Db) (t : TaskRecord)
      → publish_result sha256 lease result now db ≡ (ok t, after)
      → Published lease result now db after t
  publish_result-Published lease result now db after t e =
      under_lease_cases sha256 lease now
        (λ o. o ≡ (ok t, after) → Published lease result now db after t) (λ row. publish result now)
        (λ row x. refl) db (λ e' h p. absurd (cc (ap (λ (o : Result TaskRecord × Db). o.0) p)))
        (λ row c p. record {
          row = row;
          checked = c;
          stored = rw (← ap (λ (o : Result TaskRecord × Db). o.1) p) (
              find-modify task_key lease.task_id (publish result now) (λ x. refl) db.tasks row
                c.found);
          returned = ground arith;
        })
        (sym (publish_result-under_lease sha256 lease now result db) ∙ e)

  publish_result-IsKeyed :
      (lease : Lease) (result : ProviderResult) (now : ℕ) (db : Db)
      → IsKeyed task_key db.tasks
      → IsKeyed task_key (publish_result sha256 lease result now db).1.tasks
  publish_result-IsKeyed lease result now db k =
      IsKeyed-Pointwise task_key _ (λ x y r. (Move-SameRequest x y r).id) db.tasks _
        (publish_result-Moved sha256 lease now result db) k

  -- The task has this result, and a lease on it is refused.
  pub record Final (task_id : String) (result : ProviderResult) (other : Lease) (at : ℕ) (db : Db)
      : Type 0 where
    pub row : TaskRow
    pub stored : find_task task_id db ≡ some row
    pub result_json : row.result_json ≡ some result
    pub refuses : Refuses other at db

  -- On a table with unique ids, a result that is published stays the task's stored result after any
  -- history of calls, and every lease on the task is refused from then on: nothing is published
  -- over it.
  pub publish_result-Final :
      (lease other : Lease) (result : ProviderResult) (now at : ℕ) (history : List (ℕ × Call))
      (db after : Db) (t : TaskRecord)
      → IsKeyed task_key db.tasks
      → publish_result sha256 lease result now db ≡ (ok t, after)
      → other.task_id ≡ lease.task_id
      → Final lease.task_id result other at (run sha256 history after)
  publish_result-Final lease other result now at history db after t keyed e same =
      let p = publish_result-Published lease result now db after t e in
      let keyed' : IsKeyed task_key after.tasks =
        rw (← ap (λ (o : Result TaskRecord × Db). o.1) e)
          (publish_result-IsKeyed lease result now db keyed) in
      record {
        row = publish result now p.row;
        stored =
            terminal-run sha256 history after lease.task_id (publish result now p.row) keyed'
              p.stored refl;
        result_json = refl;
        refuses =
            terminal-Refuses other at history after (publish result now p.row) keyed'
              (rw same p.stored) refl;
      }
