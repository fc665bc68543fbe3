-- ===== src/Server/Offering.antt =====
-- About the envelope of a task on its way from a device through the table to a worker, which validates
-- it again (worker/runtime.py, `run_once`).
use model_courier.Prelude.{
  ℕ, ◌+◌, ◌≤◌, ◌<◌, true, arith, ◌≡◌, refl, sym, ap, ◌∙◌, subst, String, List, [], ◌∷◌, some, All,
  All-append,
}
use model_courier.Prelude.Tables.Laws.{IsKeyed, All-Pointwise, find-All}
use model_courier.Contracts.{CapabilityManifest, TaskEnvelope}
use model_courier.Contracts.Models.{
  strip_envelope, checked_some, validate_envelope, validate_envelope-validate_envelope,
}
use model_courier.Contracts.Checks.{is_envelope}
use model_courier.Server.Exec.{ok}
use model_courier.Server.Db.{Db, TaskRow, empty}
use model_courier.Server.Repository.{Lease, task_key, find_task}
use model_courier.Server.Repository.Submit.{create_uploading, uploading_row}
use model_courier.Server.Repository.Claim.{claim_next, candidates}
use model_courier.Server.Lifecycle.Rows.{SameRequest, Move-SameRequest}
use model_courier.Server.Lifecycle.Moves.{Moved}
use model_courier.Server.Lifecycle.Calls.{
  Call, StepView, creating, moving, step_view, creates, step, run,
}
use model_courier.Server.Lifecycle.Effects.{create_uploading_cases}
use model_courier.Server.Lifecycle.History.{run-empty-IsWellFormed, step-IsKeyed}
use model_courier.Server.Claiming.{claim_next-Picks, Picks-found, granted_row}

module _ (sha256 strip : String → String) where
  -- A device's envelope reaches the table only as the validated body of its request.
  abbrev pub IsValidated : ℕ × Call → Type 0
  IsValidated (now, creates i o d e g) =
      (raw : TaskEnvelope) × (validate_envelope strip raw ≡ some e)
  IsValidated (now, c) = Unit

  -- The envelope of a row is valid, and says when the task expires.
  pub record Accepted (x : TaskRow) : Type 0 where
    pub valid : validate_envelope strip x.request ≡ some x.request
    pub typed : x.task_type ≡ x.request.task_type
    pub expiry : x.expires_at ≡ x.created_at + x.request.ttl_seconds

  Same-Accepted : (x y : TaskRow) → SameRequest x y → Accepted x → Accepted y
  Same-Accepted x y s a = record {
    valid = subst (λ e. validate_envelope strip e ≡ some e) (sym s.request) a.valid;
    typed = s.task_type ∙ a.typed ∙ ap (λ (e : TaskEnvelope). e.task_type) (sym s.request);
    expiry = ground (
      arith,
      s.expires_at,
      s.created_at,
      ap (λ (e : TaskEnvelope). e.ttl_seconds) s.request,
      a.expiry,
    );
  }

  module _ (again : (text : String) → strip (strip text) ≡ strip text) (now : ℕ) (db : Db)
      (accepted : All Accepted db.tasks) where
    Moved-Accepted : (ys : List TaskRow) → Moved now db.tasks ys → All Accepted ys
    Moved-Accepted ys m =
        All-Pointwise _ Accepted (λ x y r. Same-Accepted x y (Move-SameRequest x y r)) db.tasks ys m
          accepted

    same-Accepted : (ys : List TaskRow) → ys ≡ db.tasks → All Accepted ys
    same-Accepted ys e = subst (All Accepted) (sym e) accepted

    create-Accepted :
        (i o d : String) (e : TaskEnvelope) (g : String)
        → IsValidated (now, creates i o d e g)
        → All Accepted (create_uploading i o d e g now db).1.tasks
    create-Accepted i o d e g (raw, v) =
        create_uploading_cases (All Accepted) i o d e g now db accepted (λ free.
          All-append Accepted db.tasks (uploading_row i o d e g now ∷ []) accepted (
            record {
              valid = validate_envelope-validate_envelope strip again raw e v;
              typed = refl;
              expiry = refl;
            },
            tt,
          ))

    step-Accepted :
        (c : Call)
        → StepView sha256 c
        → IsKeyed task_key db.tasks
        → IsValidated (now, c)
        → All Accepted (step sha256 now c db).tasks
    unfolding step
    step-Accepted c (creating i o d e g) k v = create-Accepted i o d e g v
    step-Accepted c (moving m) k v = Moved-Accepted _ (m now db k)

  pub run-Accepted :
      ((text : String) → strip (strip text) ≡ strip text)
      → (history : List (ℕ × Call)) (db : Db) → IsKeyed task_key db.tasks
      → All IsValidated history
      → All Accepted db.tasks
      → All Accepted (run sha256 history db).tasks
  unfolding run
  run-Accepted again [] db k v a = a
  run-Accepted again ((now, c) ∷ history) db k v a =
      run-Accepted again history (step sha256 now c db) (step-IsKeyed sha256 now c db k) v.1
        (step-Accepted again now db a c (step_view sha256 c) k v.0)

  valid_ttl :
      (raw e : TaskEnvelope)
      → validate_envelope strip raw ≡ some e
      → (1 ≤ e.ttl_seconds) × (e.ttl_seconds ≤ 604800)
  unfolding is_envelope
  valid_ttl raw e v =
      let (t, same) = checked_some is_envelope (strip_envelope strip raw) e v in
      let valid = subst (λ x. is_envelope x ≡ true) same t in (ground arith, ground arith)

  -- If stripping a text twice is stripping it once, then after any history of calls on an empty
  -- database in which every envelope handed in is one that a request body was validated to, the
  -- envelope of every lease that a claim returns is that of the lease's task, is accepted unchanged
  -- when the worker validates it again, and its task expires later than it was created and at most
  -- seven days later.
  pub claim_next-validate_envelope :
      (w : String) (cs : List CapabilityManifest) (token : String) (now : ℕ)
      (history : List (ℕ × Call)) (lease : Lease) (after : Db)
      → ((text : String) → strip (strip text) ≡ strip text)
      → All IsValidated history
      → claim_next sha256 w cs token now (run sha256 history empty) ≡ (ok (some lease), after)
      → (row : TaskRow) × (find_task lease.task_id after ≡ some row)
        × (lease.request ≡ some row.request)
        × (validate_envelope strip row.request ≡ some row.request)
        × (row.created_at < row.expires_at)
        × (row.expires_at ≤ row.created_at + 604800)
  claim_next-validate_envelope w cs token now history lease after again v e =
      let db = run sha256 history empty in
      let p =
        claim_next-Picks sha256 w cs token now db lease after
          (run-empty-IsWellFormed sha256 history).keyed e in
      let a =
        find-All task_key Accepted p.row.id db.tasks p.row p.found
          (run-Accepted again history empty tt v tt) in
      let (low, high) = valid_ttl p.row.request p.row.request a.valid in
      let expiry = a.expiry in
      (
        granted_row sha256 w cs token now db p.capability p.row,
        Picks-found sha256 w cs token now db (candidates now db) lease after p,
        ap (λ (l : Lease). l.request) p.lease_is,
        a.valid,
        ground arith,
        ground arith,
      )
