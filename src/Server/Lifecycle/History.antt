-- ===== src/Server/Lifecycle/History.antt =====
-- About histories of calls of repository.py: the invariant of the tables, and how a row at one time
-- stands to the row at a later one.
use model_courier.Prelude.{
  ℕ, ◌≤◌, ◌≡◌, ◌∙◌, ap, String, true, List, [], ◌∷◌, some, All, All-append, arith,
}
use model_courier.Prelude.Tables.Laws.{
  IsKeyed, IsKeyed-Pointwise, IsKeyed-append, All-Pointwise, find-Pointwise, find-append_some,
}
use model_courier.Prelude.Tables.{find}
use model_courier.Server.Db.{Db, TaskRow, empty}
use model_courier.Server.Repository.{task_key, find_task, is_terminal}
use model_courier.Server.Lifecycle.{Move, IsSound}
use model_courier.Server.Lifecycle.Rows.{
  SameRequest, Move-SameRequest, Move-IsSound, IsNew-IsSound, Move-terminal, Move-generation,
}
use model_courier.Server.Lifecycle.Calls.{Call, step, run, Evolution, moves, adds, step-Evolution}

pub record IsWellFormed (db : Db) : Type 0 where
  pub keyed : IsKeyed task_key db.tasks
  pub sound : All IsSound db.tasks

empty-IsWellFormed : IsWellFormed empty
empty-IsWellFormed = record { keyed = tt; sound = tt }

Evolution-IsKeyed :
    {now : ℕ} (xs ys : List TaskRow)
    → Evolution now xs ys
    → IsKeyed task_key xs
    → IsKeyed task_key ys
Evolution-IsKeyed xs ys (moves m) k =
    IsKeyed-Pointwise task_key _ (λ x y r. (Move-SameRequest x y r).id) xs ys m k
Evolution-IsKeyed xs ys (adds x n free e) k = rw e (IsKeyed-append task_key xs x k free)

Evolution-sound :
    {now : ℕ} (xs ys : List TaskRow) → Evolution now xs ys → All IsSound xs → All IsSound ys
Evolution-sound xs ys (moves m) s = All-Pointwise _ IsSound Move-IsSound xs ys m s
Evolution-sound xs ys (adds x n free e) s =
    rw e (All-append IsSound xs (x ∷ []) s (IsNew-IsSound x n, tt))

-- How a row stands to itself later on.
pub record Later (x y : TaskRow) : Type 0 where
  pub request : SameRequest x y
  pub generation : x.lease_generation ≤ y.lease_generation
  pub final : is_terminal x.status ≡ true → y ≡ x

pub Later-refl : (x : TaskRow) → Later x x
Later-refl x = ground arith

pub Later-trans : (x y z : TaskRow) → Later x y → Later y z → Later x z
Later-trans x y z a b = record {
  request = ground arith;
  generation = omega arith;
  final = λ t. let same = a.final t in b.final (rw same t) ∙ same;
}

pub Move-Later : {now : ℕ} (x y : TaskRow) → Move now x y → Later x y
Move-Later x y m = record {
  request = Move-SameRequest x y m;
  generation = Move-generation x y m;
  final = Move-terminal x y m;
}

module _ (sha256 : String → String) where
  pub step-IsKeyed :
      (now : ℕ) (c : Call) (db : Db)
      → IsKeyed task_key db.tasks
      → IsKeyed task_key (step sha256 now c db).tasks
  step-IsKeyed now c db k = Evolution-IsKeyed db.tasks _ (step-Evolution sha256 now c db k) k

  -- Every call keeps the database well formed.
  pub step-IsWellFormed :
      (now : ℕ) (c : Call) (db : Db) → IsWellFormed db → IsWellFormed (step sha256 now c db)
  step-IsWellFormed now c db v = record {
    keyed = step-IsKeyed now c db v.keyed;
    sound = Evolution-sound db.tasks _ (step-Evolution sha256 now c db v.keyed) v.sound;
  }

  pub run-IsWellFormed :
      (history : List (ℕ × Call)) (db : Db) → IsWellFormed db → IsWellFormed (run sha256 history db)
  unfolding run
  run-IsWellFormed [] db v = v
  run-IsWellFormed ((now, c) ∷ history) db v =
      run-IsWellFormed history (step sha256 now c db) (step-IsWellFormed now c db v)

  -- After any history of calls on an empty database the ids of the tasks are unique and every row
  -- is sound: its lease columns are set exactly while it is held, its result columns exactly when
  -- it has succeeded, its generation is the number of its attempts, and those are three at most.
  pub run-empty-IsWellFormed : (history : List (ℕ × Call)) → IsWellFormed (run sha256 history empty)
  run-empty-IsWellFormed history = run-IsWellFormed history empty empty-IsWellFormed

  step-Later :
      (now : ℕ) (c : Call) (db : Db) (k : String) (x : TaskRow)
      → IsKeyed task_key db.tasks
      → find_task k db ≡ some x
      → (y : TaskRow) × (find_task k (step sha256 now c db) ≡ some y) × Later x y
  step-Later now c db k x keyed e = go _ (step-Evolution sha256 now c db keyed)
    where
      go :
          (ys : List TaskRow)
          → Evolution now db.tasks ys
          → (y : TaskRow) × (find task_key k ys ≡ some y) × Later x y
      go ys (moves m) =
          let (y, found, r) =
            find-Pointwise task_key (Move now) (λ a b r. (Move-SameRequest a b r).id) k db.tasks ys
              x m e in
          (y, found, Move-Later x y r)
      go ys (adds z n free made) =
          (x, rw made (find-append_some task_key k db.tasks (z ∷ []) x e), Later-refl x)

  -- A task that is there stays there, with its request; see `Later`.
  pub run-Later :
      (history : List (ℕ × Call)) (db : Db) (k : String) (x : TaskRow)
      → IsKeyed task_key db.tasks
      → find_task k db ≡ some x
      → (y : TaskRow) × (find_task k (run sha256 history db) ≡ some y) × Later x y
  unfolding run
  run-Later [] db k x keyed e = (x, e, Later-refl x)
  run-Later ((now, c) ∷ history) db k x keyed e =
      let (y, found, xy) = step-Later now c db k x keyed e in
      let (z, last, yz) =
        run-Later history (step sha256 now c db) k y (step-IsKeyed now c db keyed) found in
      (z, last, Later-trans x y z xy yz)

  -- On a table with unique ids, the row of a task in a terminal status is the same after any
  -- history of calls.
  pub terminal-run :
      (history : List (ℕ × Call)) (db : Db) (k : String) (x : TaskRow)
      → IsKeyed task_key db.tasks
      → find_task k db ≡ some x
      → is_terminal x.status ≡ true
      → find_task k (run sha256 history db) ≡ some x
  terminal-run history db k x keyed e t =
      let (y, found, later) = run-Later history db k x keyed e in found ∙ ap some (later.final t)
