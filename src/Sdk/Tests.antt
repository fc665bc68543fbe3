-- ===== src/Sdk/Tests.antt =====
-- The theorems on the SDK's client, applied to a server that is busy at first and to a task that is
-- canceled.
use model_courier.Prelude.{
  ℕ, zero, suc, ◌≡◌, ◌↔◌, refl, String, false, none, List, [], ◌∷◌, map, All,
}
use model_courier.Prelude.Int.{ℤ, pos}
use model_courier.Server.Db.{Status, running, canceled, expired}
use model_courier.Agent.Json.{Value}
use model_courier.Sdk.{
  Reply, Attempt, transport_error, replied, requests, sleeps, returns, request, request_from,
}
use model_courier.Sdk.Requests.{Decides, request-Decides}
use model_courier.Sdk.Tasks.{TaskView, waiting, wait_for_result}
use model_courier.Sdk.Waiting.{round_of, GoesOn, wait_for_result-waiting}

abbrev show : Value → String
show value = "detail"

abbrev created : Reply
created = record { status_code = 201; json = none; text = "" }

abbrev server : ℕ → Attempt
server zero = transport_error
server (suc zero) = replied (record created { status_code = 503 })
server (suc (suc n)) = replied created

third_attempt :
    request show 4 250 server
    ≡ (requests 0 ∷ sleeps 250 ∷ requests 1 ∷ sleeps 500 ∷ requests 2 ∷ [], returns created)
unfolding request request_from
third_attempt = refl

request-Decides_example : Decides show 250 server 0 4 (request show 4 250 server)
request-Decides_example = request-Decides show 4 250 server

abbrev task : TaskView
task = record {
  task_id = "t";
  status = "queued";
  task_type = "vision.detect.v1";
  expires_at = 90;
  attempt = 0;
  result_available = false;
  result_expires_at = none;
  upload_url = none;
  error = none;
}

abbrev rounds : List (Status × ℤ)
rounds = (running, pos 9) ∷ (canceled, pos 8) ∷ (expired, pos 7) ∷ []

wait_for_result-waiting_example :
    ((wait_for_result "t" 1 (map (round_of task) rounds)).1 ≡ waiting) ↔ All GoesOn rounds
wait_for_result-waiting_example = wait_for_result-waiting task "t" 1 rounds
