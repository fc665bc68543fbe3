-- ===== src/Server/Routes/Exhausted.antt =====
-- What `GET /tasks/{id}` of routes_devices.py answers for a task that the sweep has failed.
use model_courier.Prelude.{
  ℕ, ◌≡◌, refl, ◌∙◌, String, true, Option, none, some, Option-cases, arith, Bool-cases, inl, inr,
  ap,
}
use model_courier.Prelude.Tables.{select_one}
use model_courier.Server.Db.{Db, TaskRow}
use model_courier.Server.Repository.Submit
use model_courier.Server.Repository.{row_to_task}
use model_courier.Server.Exec.{not_found}
use model_courier.Server.Repository.Submit.{expire}
use model_courier.Server.Repository.Sweep.{
  requeue_expired, is_overdue, is_retriable, is_exhausted, exhaust, is_owned,
}
use model_courier.Server.Lifecycle.Moves.{swept, sweep_tasks, sweep_tasks-Pointwise, swept-Move}
use model_courier.Server.Lifecycle.Rows.{Move-SameRequest}
use model_courier.Server.Submitting.{select_one-Pointwise}
use model_courier.Server.Tokens.{Principal}
use model_courier.Server.Routes.{
  Reply, refuses, view, validate_error, TaskView, map_repository_error, shown_in_try,
}
use model_courier.Server.Routes.Devices.{get_task}

swept-exhausted : (now : ℕ) (r : TaskRow) → is_exhausted now r ≡ true → swept now r ≡ exhaust now r
swept-exhausted now r e = elim (Bool-cases (is_overdue now r)) [
  | inl o ↦ absurd (ground arith)
  | inr o ↦ rw o (elim (Bool-cases (is_retriable now r)) [
    | inl t ↦ absurd (ground arith)
    | inr t ↦ rw (t, e) refl
  ])
]

is_owned-swept :
    (owner_id task_id : String) (now : ℕ) (x y : TaskRow)
    → y ≡ swept now x
    → is_owned owner_id task_id y ≡ is_owned owner_id task_id x
is_owned-swept owner_id task_id now x y e =
    rw e (let s = Move-SameRequest x (swept now x) (swept-Move now x) in rw (s.id, s.owner_id) refl)

selected-exhausted :
    (owner_id task_id : String) (now : ℕ) (db : Db) (r : TaskRow)
    → select_one (is_owned owner_id task_id) db.tasks ≡ some r
    → is_exhausted now r ≡ true
    → select_one (is_owned owner_id task_id) (requeue_expired now db).1.tasks ≡ some (exhaust now r)
unfolding requeue_expired
selected-exhausted owner_id task_id now db r found e =
    let (y, at, same) =
      select_one-Pointwise {R = λ x y. y ≡ swept now x} (is_owned owner_id task_id)
        (is_owned-swept owner_id task_id now) db.tasks (sweep_tasks now db.tasks) r
        (sweep_tasks-Pointwise (λ x y. y ≡ swept now x) now (λ x. refl) db.tasks) found in
    at ∙ ap some (same ∙ swept-exhausted now r e)

shown_from : Option TaskRow → Reply TaskView
unfolding view validate_error
shown_from none = map_repository_error (not_found "task not found")
shown_from (some row) = shown_in_try (view (row_to_task row) none)

get_task-shown_from :
    (p : Principal) (task_id : String) (db : Db)
    → get_task task_id p db ≡ shown_from (select_one (is_owned p.owner_id task_id) db.tasks)
unfolding get_task Submit.get_task shown_from
get_task-shown_from p task_id db =
    elim (Option-cases (select_one (is_owned p.owner_id task_id) db.tasks)) [
      | inl e ↦ rw (e, Submit.get_task, shown_from) refl
      | inr (r, e) ↦ rw (e, Submit.get_task, shown_from) refl
    ]

-- For the owner's task whose attempts or time the sweep finds exhausted, the handler of GET
-- /tasks/{id} answers 500 after that sweep.
pub get_task-requeue_expired :
    (p : Principal) (task_id : String) (now : ℕ) (db : Db) (r : TaskRow)
    → select_one (is_owned p.owner_id task_id) db.tasks ≡ some r
    → is_exhausted now r ≡ true
    → get_task task_id p (requeue_expired now db).1 ≡ refuses 500 "internal repository error"
unfolding shown_from view validate_error
get_task-requeue_expired p task_id now db r found e =
    get_task-shown_from p task_id (requeue_expired now db).1
    ∙ ap shown_from (selected-exhausted p.owner_id task_id now db r found e)
