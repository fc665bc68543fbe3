-- ===== src/Server/Tests/Reports.antt =====
-- The theorems on the handlers of the workers, applied to a worker with a token of 16 characters: its
-- result, and the report of a provider that fails without a word.
use model_courier.Prelude.{
  ℕ, ◌≡◌, refl, arith, String, none, some, Option, List, [], ◌∷◌, contains, is_subset, ◌==◌,
  if◌then◌else◌,
}
use model_courier.Prelude.Texts.{size, strip_left, strip_right, from_char}
use model_courier.Prelude.Tables.{
  find, modify, select, select_one, update, delete, order_by, insert_by,
}
use model_courier.Server.Exec.{ok}
use model_courier.Server.Db.{Db, TaskRow, empty, succeeded}
use model_courier.Server.Repository.{Lease, find_task, reselect, insert_task, insert_artifact}
use model_courier.Server.Repository.Identities.{ensure_owner, ensure_device, ensure_worker}
use model_courier.Server.Repository.Submit
use model_courier.Server.Repository.Submit.{
  create_uploading, create_or_reuse, finalize_and_enqueue, finalize_row, enqueue, uploading_row,
  remove_input_artifacts,
}
use model_courier.Server.Repository.Matching.{matches, accepts}
use model_courier.Server.Repository.Claim.{claim_next, claim_first, candidates, granted}
use model_courier.Server.Repository.Leases.{check_lease, check_row, is_current, publish_result}
use model_courier.Server.Repository.Sweep.{requeue_expired}
use model_courier.Server.Lifecycle.Calls.{
  Call, run, step, sweeps, claims, creates, finalizes, ensures_owner, ensures_device,
  ensures_worker,
}
use model_courier.Server.Lifecycle.History.{run-empty-IsWellFormed}
use model_courier.Server.Keeping.Steps.{spares, renews, presents}
use model_courier.Server.Keeping.Turns.{IsTimely}
use model_courier.Server.Tokens.{Principal, worker, device, authenticate}
use model_courier.Server.Storage.{Files}
use model_courier.Server.Routes.{AppState, answers}
use model_courier.Server.Routes.Bearer.{bearer_value, begins_lower, worker_principal}
use model_courier.Server.Routes.Workers.{Progress, publish_worker_result}
use model_courier.Server.Routes.Devices.{get_result}
use model_courier.Server.Routes.Releasing.{Released, publish_worker_result-Released}
use model_courier.Server.Routes.Foreign.{Shut, claim_next-Shut}
use model_courier.Server.Routes.Delivering.{request_of, claim_next-get_result}
use model_courier.Server.Tests.{sha256, sound, envelope, both, first_lease, transcript}

abbrev key : String
key = "0123456789abcdef"

abbrev hands_in : List (ℕ × Call)
hands_in =
    (0, ensures_owner "o")
    ∷ (0, ensures_device "o" "d" "h")
    ∷ (0, ensures_worker "o" "w1" "sha256:k1" both)
    ∷ (10, creates "t" "o" "d" envelope "digest")
    ∷ (11, finalizes "a1" "t" sound "digest" (some "incoming/t/a1-speech.wav"))
    ∷ []

abbrev waiting : Db
waiting = run sha256 hands_in empty

abbrev held : Db
held = run sha256 ((12, claims "w1" both key) ∷ []) waiting

abbrev lease : Lease
lease = record first_lease { lease_token = key }

abbrev row : TaskRow
row =
    granted "w1" (sha256 key) "whisper" 1 612 12
      (enqueue 11 (uploading_row "t" "o" "d" envelope "digest" 10))

abbrev machine : Principal
machine = record { kind = worker; subject_id = "w1"; owner_id = "o" }

granted_lease : claim_next sha256 "w1" both key 12 waiting ≡ (ok (some lease), held)
unfolding run step ensure_owner ensure_device ensure_worker create_uploading create_or_reuse
    insert_task insert_artifact reselect finalize_and_enqueue finalize_row claim_next claim_first
    candidates matches accepts find modify select select_one update delete order_by insert_by
    contains is_subset
granted_lease = refl

held_row : find_task "t" held ≡ some row
unfolding run step ensure_owner ensure_device ensure_worker create_uploading create_or_reuse
    insert_task insert_artifact reselect finalize_and_enqueue finalize_row claim_next claim_first
    candidates matches accepts find modify select select_one update delete order_by insert_by
    contains is_subset
held_row = refl

size_of_key : size key ≡ 16
unfolding size
size_of_key = refl

abbrev camera : Principal
camera = record { kind = device; subject_id = "d"; owner_id = "o" }

abbrev nowhere : Files
nowhere path = none

claim_next-get_result_example :
    (progress : Progress) × (left : AppState) × (publish_worker_result sha256 some "t" transcript
        (request_of lease)
        machine
        40
        (record { db = run sha256 ((30, sweeps) ∷ []) held; files = nowhere })
      ≡ (answers progress, left))
    × (progress.task_id ≡ "t")
    × (progress.status ≡ succeeded)
    × (get_result "t" camera 9000 (run sha256 ((5000, sweeps) ∷ []) left.db)
        ≡ answers (some transcript))
unfolding IsTimely spares renews presents
claim_next-get_result_example =
    claim_next-get_result sha256 some machine camera both key 12 waiting held lease row transcript
      ((30, sweeps) ∷ []) ((5000, sweeps) ∷ []) 40 9000 nowhere
      (run-empty-IsWellFormed sha256 hands_in) granted_lease held_row refl refl (ground arith)
      (omega (arith, size_of_key)) (omega (arith, size_of_key)) (ground arith)

-- The same, but the worker belongs to somebody else.
abbrev hands_in_foreign : List (ℕ × Call)
hands_in_foreign =
    (0, ensures_owner "o")
    ∷ (0, ensures_owner "z")
    ∷ (0, ensures_device "o" "d" "h")
    ∷ (0, ensures_worker "z" "w1" "sha256:k1" both)
    ∷ (10, creates "t" "o" "d" envelope "digest")
    ∷ (11, finalizes "a1" "t" sound "digest" (some "incoming/t/a1-speech.wav"))
    ∷ []

abbrev waiting_foreign : Db
waiting_foreign = run sha256 hands_in_foreign empty

abbrev held_foreign : Db
held_foreign = run sha256 ((12, claims "w1" both key) ∷ []) waiting_foreign

abbrev stranger : Principal
stranger = record machine { owner_id = "z" }

granted_foreign :
    claim_next sha256 "w1" both key 12 waiting_foreign ≡ (ok (some lease), held_foreign)
unfolding run step ensure_owner ensure_device ensure_worker create_uploading create_or_reuse
    insert_task insert_artifact reselect finalize_and_enqueue finalize_row claim_next claim_first
    candidates matches accepts find modify select select_one update delete order_by insert_by
    contains is_subset
granted_foreign = refl

admitted_foreign :
    worker_principal sha256 (some "Bearer k1") (run sha256 ((700, sweeps) ∷ []) held_foreign)
    ≡ answers stranger
unfolding run step ensure_owner ensure_device ensure_worker create_uploading create_or_reuse
    insert_task insert_artifact reselect finalize_and_enqueue finalize_row claim_next claim_first
    candidates matches accepts find modify select select_one update delete order_by insert_by
    contains is_subset worker_principal bearer_value begins_lower from_char strip_left strip_right
    authenticate requeue_expired
admitted_foreign = refl

claim_next-Shut_example :
    Shut sha256 some
      (some "Bearer k1")
      "t"
      stranger
      800
      (run sha256 ((700, sweeps) ∷ []) held_foreign)
claim_next-Shut_example =
    claim_next-Shut sha256 some stranger both key 12 waiting_foreign held_foreign lease
      (some "Bearer k1") ((700, sweeps) ∷ []) 800 (run-empty-IsWellFormed sha256 hands_in_foreign)
      granted_foreign refl admitted_foreign

abbrev uploaded : Files
uploaded path = if path == "incoming/t/a1-speech.wav" then some (1 ∷ 2 ∷ 3 ∷ []) else none

abbrev before : AppState
before = record { db = held; files = uploaded }

abbrev resolve : String → Option String
resolve path = some path

abbrev after : AppState
after = (publish_worker_result sha256 resolve "t" transcript (request_of lease) machine 20 before).1

answered :
    publish_worker_result sha256 resolve "t" transcript (request_of lease) machine 20 before
    ≡ (answers (record { task_id = "t"; status = succeeded; attempt = 1 }), after)
unfolding run step ensure_owner ensure_device ensure_worker create_uploading create_or_reuse
    insert_task insert_artifact reselect finalize_and_enqueue finalize_row claim_next claim_first
    candidates matches accepts find modify select select_one update delete order_by insert_by
    contains is_subset check_lease check_row is_current publish_result publish_worker_result
    remove_input_artifacts Submit.get_task size
answered = refl

publish_worker_result-Released_example : Released resolve "t" before after
publish_worker_result-Released_example =
    publish_worker_result-Released resolve sha256 "t" transcript (request_of lease) machine 20
      before after (record { task_id = "t"; status = succeeded; attempt = 1 }) answered
