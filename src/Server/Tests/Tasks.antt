-- ===== src/Server/Tests/Tasks.antt =====
-- The theorems on tasks and leases, applied to that server.
use model_courier.Prelude.{◌≡◌, ◌+◌, ◌*◌, refl, some, [], ◌∷◌, All, contains, is_subset}
use model_courier.Prelude.Tables.{
  find, modify, select, select_one, update, delete, order_by, insert_by, count,
}
use model_courier.Server.Exec.{ok, err, conflict}
use model_courier.Server.Db.{Db, TaskRow, empty}
use model_courier.Server.Repository.{
  Lease, TaskRecord, row_to_task, find_task, reselect, insert_task, insert_artifact,
}
use model_courier.Server.Repository.Identities.{ensure_owner, ensure_device}
use model_courier.Server.Repository.Submit.{
  create_uploading, create_or_reuse, finalize_and_enqueue, finalize_row, enqueue, uploading_row,
}
use model_courier.Server.Repository.Matching.{matches, accepts}
use model_courier.Server.Repository.Claim.{claim_next, claim_first, candidates, granted}
use model_courier.Server.Repository.Leases.{
  check_lease, check_row, is_current, publish_result, publish,
}
use model_courier.Server.Repository.Sweep.{requeue_expired, is_overdue, is_retriable}
use model_courier.Server.Lifecycle.Calls.{
  run, step, sweeps, beats, claims, creates, ensures_owner, ensures_device, publishes_result,
  cancels_task,
}
use model_courier.Server.Lifecycle.History.{
  IsWellFormed, run-empty-IsWellFormed, run-IsWellFormed, terminal-run,
}
use model_courier.Server.Fencing.{Refuses, Final, publish_result-Final}
use model_courier.Server.Claiming.Granting.{Grants, claim_next-Grants}
use model_courier.Server.Claiming.Exclusive.{claim_next-Refuses}
use model_courier.Server.Claiming.Routing.{Routes, matches-Routes}
use model_courier.Server.Sweeping.{
  IsClean, requeue_expired-IsClean, requeue_expired-overcounts, is_swept,
}
use model_courier.Server.Submitting.{create_uploading-create_uploading}
use model_courier.Server.Tests.{sha256, both, ready, submits, first_lease, transcript, envelope}

run-empty-IsWellFormed_example : IsWellFormed ready
run-empty-IsWellFormed_example = run-empty-IsWellFormed sha256 submits

abbrev pub claimed : Db
claimed = run sha256 ((12, claims "w1" both "token1") ∷ []) ready

pub granted_first : claim_next sha256 "w1" both "token1" 12 ready ≡ (ok (some first_lease), claimed)
unfolding run step ensure_owner ensure_device create_uploading create_or_reuse insert_task
    insert_artifact reselect finalize_and_enqueue finalize_row claim_next claim_first candidates
    matches accepts find modify select select_one update delete order_by insert_by contains
    is_subset check_lease check_row is_current publish_result requeue_expired
granted_first = refl

pub ready-IsWellFormed : IsWellFormed ready
ready-IsWellFormed = run-IsWellFormed sha256 submits empty (record { keyed = tt; sound = tt })

claimed-IsWellFormed : IsWellFormed claimed
claimed-IsWellFormed =
    run-IsWellFormed sha256 ((12, claims "w1" both "token1") ∷ []) ready ready-IsWellFormed

claim_next-Grants_example :
    Grants sha256 "w1" both "token1" 12 ready (claim_next sha256 "w1" both "token1" 12 ready)
claim_next-Grants_example =
    claim_next-Grants sha256 "w1" both "token1" 12 ready ready-IsWellFormed.keyed

abbrev ready_row : TaskRow
ready_row = enqueue 11 (uploading_row "t" "o" "d" envelope "digest" 10)

abbrev pub claimed_row : TaskRow
claimed_row = granted "w1" (sha256 "token1") "whisper" 1 612 12 ready_row

abbrev lapsed : Db
lapsed = run sha256 ((700, sweeps) ∷ []) claimed

abbrev claimed_again : Db
claimed_again = run sha256 ((700, claims "w2" both "token2") ∷ []) lapsed

abbrev second_lease : Lease
second_lease = record first_lease {
  worker_id = "w2";
  lease_generation = 2;
  lease_token = "token2";
  lease_until = 1300;
}

granted_second :
    claim_next sha256 "w2" both "token2" 700 lapsed ≡ (ok (some second_lease), claimed_again)
unfolding run step ensure_owner ensure_device create_uploading create_or_reuse insert_task
    insert_artifact reselect finalize_and_enqueue finalize_row claim_next claim_first candidates
    matches accepts find modify select select_one update delete order_by insert_by contains
    is_subset check_lease check_row is_current publish_result requeue_expired
granted_second = refl

claim_next-Refuses_example :
    Refuses sha256 first_lease 710 (run sha256 ((705, beats second_lease) ∷ []) claimed_again)
claim_next-Refuses_example =
    claim_next-Refuses sha256 "w1" "w2" both both "token1" "token2" 12 700 ready claimed lapsed
      claimed_again first_lease second_lease ((700, sweeps) ∷ []) ((705, beats second_lease) ∷ [])
      710 ready-IsWellFormed granted_first refl granted_second refl

abbrev published : Db
published = run sha256 ((20, publishes_result first_lease transcript) ∷ []) claimed

abbrev published_row : TaskRow
published_row = publish transcript 20 claimed_row

published_first :
    publish_result sha256 first_lease transcript 20 claimed
    ≡ (ok (row_to_task published_row), published)
unfolding run step ensure_owner ensure_device create_uploading create_or_reuse insert_task
    insert_artifact reselect finalize_and_enqueue finalize_row claim_next claim_first candidates
    matches accepts find modify select select_one update delete order_by insert_by contains
    is_subset check_lease check_row is_current publish_result requeue_expired
published_first = refl

publish_result-Final_example :
    Final sha256 "t" transcript first_lease 30
      (run sha256 ((25, sweeps) ∷ (26, cancels_task "o" "t") ∷ []) published)
publish_result-Final_example =
    publish_result-Final sha256 first_lease first_lease transcript 20 30
      ((25, sweeps) ∷ (26, cancels_task "o" "t") ∷ []) claimed published (row_to_task published_row)
      claimed-IsWellFormed.keyed published_first refl

lapsed-IsWellFormed : IsWellFormed lapsed
lapsed-IsWellFormed = run-IsWellFormed sha256 ((700, sweeps) ∷ []) claimed claimed-IsWellFormed

published-IsWellFormed : IsWellFormed published
published-IsWellFormed =
    run-IsWellFormed sha256 ((20, publishes_result first_lease transcript) ∷ []) claimed
      claimed-IsWellFormed

found_published : find_task "t" published ≡ some published_row
unfolding run step ensure_owner ensure_device create_uploading create_or_reuse insert_task
    insert_artifact reselect finalize_and_enqueue finalize_row claim_next claim_first candidates
    matches accepts find modify select select_one update delete order_by insert_by contains
    is_subset check_lease check_row is_current publish_result requeue_expired
found_published = refl

terminal-run_example :
    find_task "t" (run sha256 ((26, cancels_task "o" "t") ∷ []) published) ≡ some published_row
terminal-run_example =
    terminal-run sha256 ((26, cancels_task "o" "t") ∷ []) published "t" published_row
      published-IsWellFormed.keyed found_published refl

matches-Routes_example : Routes ready_row both (matches ready_row both)
matches-Routes_example = matches-Routes ready_row both

requeue_expired-IsClean_example : All (IsClean 700) (requeue_expired 700 claimed).1.tasks
requeue_expired-IsClean_example = requeue_expired-IsClean 700 claimed

requeue_expired-overcounts_example :
    (requeue_expired 700 claimed).0
    ≡ count (is_swept 700) claimed.tasks
      + 2 * count (is_overdue 700) claimed.tasks
      + count (is_retriable 700) claimed.tasks
requeue_expired-overcounts_example = requeue_expired-overcounts 700 claimed

abbrev owned : Db
owned = run sha256 ((0, ensures_owner "o") ∷ (0, ensures_device "o" "d" "h") ∷ []) empty

owned-IsWellFormed : IsWellFormed owned
owned-IsWellFormed =
    run-IsWellFormed sha256 ((0, ensures_owner "o") ∷ (0, ensures_device "o" "d" "h") ∷ []) empty
      (record { keyed = tt; sound = tt })

abbrev submitted : Db
submitted = run sha256 ((10, creates "t" "o" "d" envelope "digest") ∷ []) owned

submitted_first :
    create_uploading "t" "o" "d" envelope "digest" 10 owned
    ≡ (ok (row_to_task (uploading_row "t" "o" "d" envelope "digest" 10)), submitted)
unfolding run step ensure_owner ensure_device create_uploading create_or_reuse insert_task
    insert_artifact reselect finalize_and_enqueue finalize_row claim_next claim_first candidates
    matches accepts find modify select select_one update delete order_by insert_by contains
    is_subset check_lease check_row is_current publish_result requeue_expired
submitted_first = refl

create_uploading-create_uploading_example :
    (t : TaskRecord) × (t.id ≡ "t")
    × (create_uploading "u" "o" "d" envelope "other" 20 (run sha256 ((15, sweeps) ∷ []) submitted)
        ≡ (
          err (conflict "idempotency key was used with a different request"),
          run sha256 ((15, sweeps) ∷ []) submitted,
        ))
create_uploading-create_uploading_example =
    create_uploading-create_uploading sha256 "t" "u" "o" "d" "digest" "other" envelope envelope 10
      20 owned submitted _ ((15, sweeps) ∷ []) owned-IsWellFormed submitted_first refl
