-- ===== src/Server/Tests/Answers.antt =====
-- The theorem on a task that the sweep has failed, applied to that server after its first claim.
use model_courier.Prelude.{◌≡◌, refl, some, contains, is_subset}
use model_courier.Prelude.Tables.{
  find, modify, select, select_one, update, delete, order_by, insert_by,
}
use model_courier.Server.Repository.{reselect, insert_task, insert_artifact}
use model_courier.Server.Repository.Identities.{ensure_owner, ensure_device}
use model_courier.Server.Repository.Submit.{
  create_uploading, create_or_reuse, finalize_and_enqueue, finalize_row,
}
use model_courier.Server.Repository.Matching.{matches, accepts}
use model_courier.Server.Repository.Claim.{claim_next, claim_first, candidates}
use model_courier.Server.Repository.Leases.{check_lease, check_row, is_current, publish_result}
use model_courier.Server.Repository.Sweep.{requeue_expired, is_owned}
use model_courier.Server.Lifecycle.Calls.{run, step}
use model_courier.Server.Tokens.{Principal, device}
use model_courier.Server.Routes.{refuses}
use model_courier.Server.Routes.Devices
use model_courier.Server.Routes.Exhausted.{get_task-requeue_expired}
use model_courier.Server.Tests.Tasks.{claimed, claimed_row}

abbrev owner : Principal
owner = record { kind = device; subject_id = "d"; owner_id = "o" }

selected_claimed : select_one (is_owned "o" "t") claimed.tasks ≡ some claimed_row
unfolding run step ensure_owner ensure_device create_uploading create_or_reuse insert_task
    insert_artifact reselect finalize_and_enqueue finalize_row claim_next claim_first candidates
    matches accepts find modify select select_one update delete order_by insert_by contains
    is_subset check_lease check_row is_current publish_result requeue_expired
selected_claimed = refl

get_task-requeue_expired_example :
    Devices.get_task "t" owner (requeue_expired 4000 claimed).1
    ≡ refuses 500 "internal repository error"
get_task-requeue_expired_example =
    get_task-requeue_expired owner "t" 4000 claimed claimed_row selected_claimed refl
