-- ===== src/Server/Tests/Holding.antt =====
-- The theorems on a task that a worker holds, applied to that server.
use model_courier.Prelude.{
  ℕ, ◌+◌, ◌≤◌, ◌<◌, ◌≡◌, refl, arith, some, none, List, [], ◌∷◌, contains, is_subset,
}
use model_courier.Prelude.Texts.{size, is_blank, strip, strip_left, strip_right, strip-strip}
use model_courier.Prelude.Tables.{
  find, modify, select, select_one, update, delete, order_by, insert_by,
}
use model_courier.Contracts.{TaskEnvelope}
use model_courier.Contracts.Checks.{
  are_all, is_made_of, is_sha256, is_idempotency_key, is_task_type, is_artifact, is_requirements,
  is_envelope,
}
use model_courier.Contracts.Models.{validate_envelope}
use model_courier.Server.Exec.{ok}
use model_courier.Server.Db.{Db, TaskRow, empty}
use model_courier.Server.Repository.{
  Lease, row_to_task, find_task, modify_task, reselect, insert_task, insert_artifact,
}
use model_courier.Server.Repository.Identities.{ensure_owner, ensure_device}
use model_courier.Server.Repository.Submit.{
  create_uploading, create_or_reuse, finalize_and_enqueue, finalize_row,
}
use model_courier.Server.Repository.Matching.{matches, accepts}
use model_courier.Server.Repository.Claim.{claim_next, claim_first, candidates}
use model_courier.Server.Repository.Leases.{check_lease, publish_result, publish}
use model_courier.Server.Lifecycle.Calls.{
  Call, run, step, sweeps, beats, claims, creates, finalizes, ensures_owner, ensures_device,
}
use model_courier.Server.Keeping.Steps.{spares, renews, presents}
use model_courier.Server.Keeping.Turns.{IsTimely, claim_next-keeps}
use model_courier.Server.Offering.{claim_next-validate_envelope}
use model_courier.Worker.Runtime.Heartbeats.{Round, answered, failed, heartbeat_loop}
use model_courier.Worker.Runtime.Heartbeats.Leases.{
  beats_at, elapsed, answers_then, breaks, claim_next-heartbeat_loop,
}
use model_courier.Server.Tests.{sha256, sound, envelope, both, ready, first_lease, transcript}
use model_courier.Server.Tests.Tasks.{claimed, granted_first, claimed_row, ready-IsWellFormed}

claimed_found : find_task "t" claimed ≡ some claimed_row
unfolding run step ensure_owner ensure_device create_uploading create_or_reuse insert_task
    insert_artifact reselect finalize_and_enqueue finalize_row claim_next claim_first candidates
    matches accepts find modify select select_one update delete order_by insert_by contains
    is_subset
claimed_found = refl

abbrev busy : List (ℕ × Call)
busy =
    (300, beats first_lease)
    ∷ (611, sweeps)
    ∷ (850, claims "w2" both "token2")
    ∷ (899, beats first_lease)
    ∷ []

claim_next-keeps_example :
    (x : TaskRow) × (check_lease sha256 first_lease 1400 (run sha256 busy claimed) ≡ ok x)
    × (publish_result sha256 first_lease transcript 1400 (run sha256 busy claimed) ≡ (
      ok (row_to_task (publish transcript 1400 x)),
      modify_task "t" (publish transcript 1400) (run sha256 busy claimed),
    ))
unfolding IsTimely spares renews presents
claim_next-keeps_example =
    claim_next-keeps sha256 "w1" both "token1" 12 ready claimed first_lease claimed_row transcript
      busy 1400 ready-IsWellFormed granted_first claimed_found (ground arith)

abbrev declared : TaskEnvelope
declared = record envelope { input_artifacts = record sound { sha256 = none } ∷ [] }

abbrev spaced : TaskEnvelope
spaced = record declared { idempotency_key = " key " }

validated : validate_envelope (strip is_blank) spaced ≡ some declared
unfolding strip_left strip_right size are_all is_made_of is_sha256 is_idempotency_key is_task_type
    is_artifact is_requirements is_envelope
validated = refl

abbrev hands_in : List (ℕ × Call)
hands_in =
    (0, ensures_owner "o")
    ∷ (0, ensures_device "o" "d" "h")
    ∷ (10, creates "t" "o" "d" declared "digest")
    ∷ (11, finalizes "a1" "t" sound "digest" (some "incoming/t/a1-speech.wav"))
    ∷ []

abbrev offered : Lease
offered = record first_lease { request = some declared }

abbrev held : Db
held = run sha256 ((12, claims "w1" both "token1") ∷ []) (run sha256 hands_in empty)

granted_declared :
    claim_next sha256 "w1" both "token1" 12 (run sha256 hands_in empty) ≡ (ok (some offered), held)
unfolding run step ensure_owner ensure_device create_uploading create_or_reuse insert_task
    insert_artifact reselect finalize_and_enqueue finalize_row claim_next claim_first candidates
    matches accepts find modify select select_one update delete order_by insert_by contains
    is_subset
granted_declared = refl

claim_next-validate_envelope_example :
    (row : TaskRow) × (find_task "t" held ≡ some row)
    × (some declared ≡ some row.request)
    × (validate_envelope (strip is_blank) row.request ≡ some row.request)
    × (row.created_at < row.expires_at)
    × (row.expires_at ≤ row.created_at + 604800)
claim_next-validate_envelope_example =
    claim_next-validate_envelope sha256 (strip is_blank) "w1" both "token1" 12 hands_in offered held
      (strip-strip is_blank) (tt, (tt, ((spaced, validated), (tt, tt)))) granted_declared

-- Two heartbeats are answered, and the third fails.
abbrev rest : List Round
rest = failed ∷ answered 1 ∷ []

claim_next-heartbeat_loop_example :
    (x : TaskRow) × (check_lease sha256 first_lease 670 (
        run sha256
          (beats_at first_lease (heartbeat_loop 30 12 (answers_then (2 ∷ 5 ∷ []) rest)))
          claimed)
      ≡ ok x)
unfolding elapsed
claim_next-heartbeat_loop_example =
    claim_next-heartbeat_loop sha256 "w1" both "token1" 12 670 30 (2 ∷ 5 ∷ []) rest ready claimed
      first_lease claimed_row ready-IsWellFormed granted_first claimed_found
      (breaks (answered 1 ∷ [])) (ground arith) (ground arith) (ground arith) (ground arith)
