-- ===== src/Providers/Tests.antt =====
-- The theorem on the bundled providers, applied to a worker with Faster-Whisper.
use model_courier.Prelude.{ℕ, ◌≡◌, refl, some, none, List, [], ◌∷◌, contains, is_subset}
use model_courier.Prelude.Texts.{size, is_blank, strip, strip_left, strip_right, strip-strip}
use model_courier.Prelude.Tables.{
  find, modify, select, select_one, update, delete, order_by, insert_by,
}
use model_courier.Contracts.{TaskEnvelope}
use model_courier.Contracts.Checks.{
  are_all, is_made_of, is_sha256, is_idempotency_key, is_task_type, is_artifact, is_requirements,
  is_envelope,
}
use model_courier.Contracts.Models.{validate_envelope}
use model_courier.Server.Exec.{ok}
use model_courier.Server.Db.{Db, empty}
use model_courier.Server.Repository.{Lease, reselect, insert_task, insert_artifact}
use model_courier.Server.Repository.Identities.{ensure_owner, ensure_device}
use model_courier.Server.Repository.Submit.{
  create_uploading, create_or_reuse, finalize_and_enqueue, finalize_row,
}
use model_courier.Server.Repository.Matching.{matches, accepts}
use model_courier.Server.Repository.Claim.{claim_next, claim_first, candidates}
use model_courier.Server.Lifecycle.Calls.{
  Call, run, step, claims, creates, finalizes, ensures_owner, ensures_device,
}
use model_courier.Server.Tests.{sha256, sound, envelope, first_lease}
use model_courier.Providers.FasterWhisper.{describe, validate}
use model_courier.Providers.Offered.{faster_whisper, claim_next-validate}

abbrev plain : TaskEnvelope
plain = record envelope {
  input_artifacts = record sound { sha256 = none } ∷ [];
  requires = record { provider = none; model = some "small"; service_id = none; formats = [] };
}

accepted : validate_envelope (strip is_blank) plain ≡ some plain
unfolding strip_left strip_right size are_all is_made_of is_sha256 is_idempotency_key is_task_type
    is_artifact is_requirements is_envelope
accepted = refl

abbrev hands_in : List (ℕ × Call)
hands_in =
    (0, ensures_owner "o")
    ∷ (0, ensures_device "o" "d" "h")
    ∷ (10, creates "t" "o" "d" plain "digest")
    ∷ (11, finalizes "a1" "t" sound "digest" (some "incoming/t/a1-speech.wav"))
    ∷ []

abbrev offered : Lease
offered = record first_lease { capability_id = "faster-whisper:default"; request = some plain }

abbrev held : Db
held = run sha256 ((12, claims "w1" (describe ∷ []) "token1") ∷ []) (run sha256 hands_in empty)

granted_plain :
    claim_next sha256 "w1" (describe ∷ []) "token1" 12 (run sha256 hands_in empty)
    ≡ (ok (some offered), held)
unfolding run step ensure_owner ensure_device create_uploading create_or_reuse insert_task
    insert_artifact reselect finalize_and_enqueue finalize_row claim_next claim_first candidates
    matches accepts find modify select select_one update delete order_by insert_by contains
    is_subset
granted_plain = refl

claim_next-validate_example : (e : TaskEnvelope) × (some plain ≡ some e) × (validate e ≡ none)
claim_next-validate_example =
    claim_next-validate sha256 (strip is_blank) "w1" describe validate "token1" 12 hands_in offered
      held (strip-strip is_blank) (tt, (tt, ((plain, accepted), (tt, tt)))) faster_whisper
      granted_plain
