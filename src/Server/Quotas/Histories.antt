-- ===== src/Server/Quotas/Histories.antt =====
-- The quotas on active tasks along a history of requests: submissions, which reserve first
-- (routes_devices.py, `create_task`), and other calls of the repository.
use model_courier.Prelude.{
  ℕ, ◌+◌, ◌≤◌, ◌<◌, ◌≡◌, refl, subst, inl, inr, String, Bool, true, false, none, List, [], ◌∷◌,
  ◌++◌, All, arith, eq_iff, ◌==◌, ◌&&◌, if◌then◌else◌, Bool-cases,
}
use model_courier.Prelude.Int.{pos}
use model_courier.Prelude.Tables.{count}
use model_courier.Prelude.Tables.Laws.{IsKeyed, IsKeyed-append, Pointwise}
use model_courier.Contracts.{TaskEnvelope}
use model_courier.Server.Exec.{
  Error, err, Result-cases, integrity, not_found, conflict, lease_conflict, assertion, interrupted,
  invalid, authentication, quota_exceeded, artifact,
}
use model_courier.Server.Db.{Db, TaskRow, empty}
use model_courier.Server.Repository.{task_key, find_task, is_terminal}
use model_courier.Server.Repository.Submit.{uploading_row}
use model_courier.Server.Lifecycle.{Move}
use model_courier.Server.Lifecycle.Rows.{Move-SameRequest, Move-terminal}
use model_courier.Server.Lifecycle.Moves.{Moved}
use model_courier.Server.Lifecycle.Calls.{
  Call, creates, step, StepView, creating, moving, step_view,
}
use model_courier.Server.Lifecycle.Effects.{create_uploading_cases}
use model_courier.Server.Lifecycle.History.{step-IsKeyed}
use model_courier.Server.Quotas.{
  reserve, is_active, is_active_of, max_device_active, max_instance_active,
}
use model_courier.Server.Quotas.Limits.{HasRoom, reserve-HasRoom_then}
use model_courier.Server.Tokens.{Principal}
use model_courier.Server.Routes.Devices.{create_task, reserved, declared_size}

count-append :
    {A : Type 0} (p : A → Bool) (xs : List A) (x : A)
    → count p (xs ++ x ∷ []) ≡ count p xs + (if p x then 1 else 0)
unfolding count
count-append p [] x = omega arith
count-append p (y ∷ xs) x = omega (arith, count-append p xs x)

-- What only leaves a set leaves fewer in it.
count-Pointwise :
    {A : Type 0} (R : A → A → Type 0) (p : A → Bool)
    → ((x y : A) → R x y → p y ≡ true → p x ≡ true)
    → (xs ys : List A) → Pointwise R xs ys
    → count p ys ≤ count p xs
unfolding count
count-Pointwise R p back [] [] r = omega arith
count-Pointwise R p back [] (y ∷ ys) r = absurd r
count-Pointwise R p back (x ∷ xs) [] r = absurd r
count-Pointwise R p back (x ∷ xs) (y ∷ ys) r =
    let rest = count-Pointwise R p back xs ys r.1 in
    elim (Bool-cases (p y)) [
      | inl t ↦ rw (t, back x y r.0 t) (omega arith)
      | inr t ↦ rw t (omega arith)
    ]

-- No device and not the instance has more active tasks than its quota.
pub record IsWithin (xs : List TaskRow) : Type 0 where
  pub device : (o d : String) → count (is_active_of o d) xs ≤ max_device_active
  pub instance_ : count is_active xs ≤ max_instance_active

active_before : {now : ℕ} (x y : TaskRow) → Move now x y → is_active y ≡ true → is_active x ≡ true
active_before x y m a = elim (Bool-cases (is_terminal x.status)) [
  | inl t ↦ absurd (let same = Move-terminal x y m t in let b = rw same at a in ground arith)
  | inr t ↦ rw t refl
]

active_of_before :
    {now : ℕ} (o d : String) (x y : TaskRow)
    → Move now x y
    → is_active_of o d y ≡ true
    → is_active_of o d x ≡ true
active_of_before o d x y m a =
    let s = Move-SameRequest x y m in
    let before = active_before x y m (ground arith) in
    ground (arith, s.owner_id, s.device_id, before)

Moved-IsWithin : (now : ℕ) (xs ys : List TaskRow) → Moved now xs ys → IsWithin xs → IsWithin ys
Moved-IsWithin now xs ys m w = record {
  device = λ o d.
      let fewer = count-Pointwise (Move now) (is_active_of o d) (active_of_before o d) xs ys m in
      omega (arith, fewer, w.device o d);
  instance_ =
      let fewer = count-Pointwise (Move now) is_active active_before xs ys m in
      omega (arith, fewer, w.instance_);
}

new-IsWithin :
    (free_bytes bytes : ℕ) (i o d : String) (e : TaskEnvelope) (g : String) (now : ℕ) (db : Db)
    → HasRoom free_bytes o d bytes db
    → IsWithin db.tasks
    → IsWithin (db.tasks ++ uploading_row i o d e g now ∷ [])
new-IsWithin free_bytes bytes i o d e g now db room w = record {
  device = λ o' d'.
      let added = count-append (is_active_of o' d') db.tasks (uploading_row i o d e g now) in
      elim (Bool-cases (o == o' && d == d')) [
        | inl t ↦
            let same_owner : o ≡ o' = (eq_iff o o').0 (ground arith) in
            let same_device : d ≡ d' = (eq_iff d d').0 (ground arith) in
            let few =
              subst (λ x. count (is_active_of x d') db.tasks < max_device_active) same_owner
                (subst (λ x. count (is_active_of o x) db.tasks < max_device_active) same_device
                  room.device) in
            ground (arith, added, few)
        | inr n ↦ ground (arith, added, w.device o' d')
      ];
  instance_ =
      let added = count-append is_active db.tasks (uploading_row i o d e g now) in
      let few = room.instance_ in ground (arith, added, few);
}

-- A submission, or another call.
pub data Request : Type 0 where
  submits : (free_bytes : ℕ) (new_id : String) → Principal → TaskEnvelope → Request
  calls : Call → Request

abbrev pub is_creation : Call → Bool
is_creation (creates i o d e g) = true
is_creation c = false

-- Tasks are made by submissions only.
abbrev pub IsRequest : ℕ × Request → Type 0
IsRequest (now, submits free_bytes new_id p e) = Unit
IsRequest (now, calls c) = is_creation c ≡ false

module _ (sha256 : String → String) (digest : TaskEnvelope → String) where
  abbrev pub serve : ℕ → Request → Db → Db
  serve now (submits free_bytes new_id p e) db = (create_task digest free_bytes new_id p e now db).1
  serve now (calls c) db = step sha256 now c db

  unfoldable pub serve_all : List (ℕ × Request) → Db → Db
  serve_all [] db = db
  serve_all ((now, r) ∷ requests) db = serve_all requests (serve now r db)

  reserved-err :
      (i : String) (p : Principal) (e : TaskEnvelope) (g : String) (now : ℕ) (x : Error) (db : Db)
      → (reserved i p e g now (err x) db).1 ≡ db
  reserved-err i p e g now (quota_exceeded detail) db = refl
  reserved-err i p e g now integrity db = refl
  reserved-err i p e g now assertion db = refl
  reserved-err i p e g now interrupted db = refl
  reserved-err i p e g now invalid db = refl
  reserved-err i p e g now (not_found detail) db = refl
  reserved-err i p e g now (conflict detail) db = refl
  reserved-err i p e g now (lease_conflict detail) db = refl
  reserved-err i p e g now (authentication detail) db = refl
  reserved-err i p e g now (artifact detail) db = refl

  -- A submission adds its row only where there is room, and under a free id.
  submit_cases :
      (P : List TaskRow → Type 0) (free_bytes : ℕ) (i : String) (p : Principal) (e : TaskEnvelope)
      (now : ℕ) (db : Db)
      → P db.tasks
      → (HasRoom free_bytes p.owner_id p.subject_id (declared_size e.input_artifacts) db
          → find_task i db ≡ none
          → P (db.tasks ++ uploading_row i p.owner_id p.subject_id e (digest e) now ∷ []))
      → P (create_task digest free_bytes i p e now db).1.tasks
  unfolding create_task
  submit_cases P free_bytes i p e now db old new =
      elim (Result-cases
        (reserve free_bytes p.owner_id p.subject_id (pos (declared_size e.input_artifacts)) db)) [
          | inr (x, h) ↦ rw (h, reserved-err i p e (digest e) now x db) old
          | inl (r, h) ↦ rw h (
              create_uploading_cases P i p.owner_id p.subject_id e (digest e) now db old (
                new (
                  reserve-HasRoom_then free_bytes p.owner_id p.subject_id
                    (declared_size e.input_artifacts) db r h)))
        ]

  serve-IsKeyed :
      (now : ℕ) (r : Request) (db : Db)
      → IsKeyed task_key db.tasks
      → IsKeyed task_key (serve now r db).tasks
  serve-IsKeyed now (submits free_bytes i p e) db k =
      submit_cases (IsKeyed task_key) free_bytes i p e now db k (λ room free.
        IsKeyed-append task_key db.tasks (uploading_row i p.owner_id p.subject_id e (digest e) now)
          k free)
  serve-IsKeyed now (calls c) db k = step-IsKeyed sha256 now c db k

  call-IsWithin :
      (now : ℕ) (c : Call) (db : Db)
      → StepView sha256 c
      → is_creation c ≡ false
      → IsKeyed task_key db.tasks
      → IsWithin db.tasks
      → IsWithin (step sha256 now c db).tasks
  call-IsWithin now c db (creating i o d e g) n k w = absurd (ground arith)
  call-IsWithin now c db (moving m) n k w = Moved-IsWithin now db.tasks _ (m now db k) w

  serve-IsWithin :
      (now : ℕ) (r : Request) (db : Db)
      → IsRequest (now, r)
      → IsKeyed task_key db.tasks
      → IsWithin db.tasks
      → IsWithin (serve now r db).tasks
  serve-IsWithin now (submits free_bytes i p e) db n k w =
      submit_cases IsWithin free_bytes i p e now db w (λ room free.
        new-IsWithin free_bytes (declared_size e.input_artifacts) i p.owner_id p.subject_id e
          (digest e) now db room w)
  serve-IsWithin now (calls c) db n k w = call-IsWithin now c db (step_view sha256 c) n k w

  serve_all-IsWithin :
      (requests : List (ℕ × Request)) (db : Db)
      → All IsRequest requests
      → IsKeyed task_key db.tasks
      → IsWithin db.tasks
      → IsWithin (serve_all requests db).tasks
  unfolding serve_all
  serve_all-IsWithin [] db n k w = w
  serve_all-IsWithin ((now, r) ∷ requests) db n k w =
      serve_all-IsWithin requests (serve now r db) n.1 (serve-IsKeyed now r db k)
        (serve-IsWithin now r db n.0 k w)

  empty-IsWithin : IsWithin empty.tasks
  unfolding count
  empty-IsWithin = record { device = λ o d. omega arith; instance_ = omega arith }

  -- After any history of requests on an empty database, in which each task is made by a submission
  -- that reserves and then creates with no other call in between, and all other requests are calls
  -- that make no task, no device has more than 10 active tasks and the instance no more than 100.
  pub serve_all-empty-IsWithin :
      (requests : List (ℕ × Request))
      → All IsRequest requests
      → IsWithin (serve_all requests empty).tasks
  serve_all-empty-IsWithin requests n = serve_all-IsWithin requests empty n tt empty-IsWithin
