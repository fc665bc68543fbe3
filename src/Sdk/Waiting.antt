-- ===== src/Sdk/Waiting.antt =====
-- About `wait_for_result` of the SDK's client, for the statuses that the server shows.
use model_courier.Prelude.{
  ℕ, zero, suc, ◌≡◌, ◌↔◌, refl, String, Bool, true, false, List, [], ◌∷◌, map, All, arith,
}
use model_courier.Prelude.Int.{ℤ, pos, negsuc}
use model_courier.Server.Db.{
  Status, uploading, queued, leased, running, succeeded, failed, expired, canceled,
}
use model_courier.Sdk.Tasks.{
  TaskView, sees, Round, Waited, waiting, wait_more, wait_round, wait_for_result,
}

-- The column `status` of the server's table.
abbrev pub status_text : Status → String
status_text uploading = "uploading"
status_text queued = "queued"
status_text leased = "leased"
status_text running = "running"
status_text succeeded = "succeeded"
status_text failed = "failed"
status_text expired = "expired"
status_text canceled = "canceled"

-- What the server shows in a round, and the time that is left.
abbrev pub round_of : TaskView → Status × ℤ → Round
round_of task (status, remaining) = record {
  polled = sees (record task { status = status_text status });
  remaining = remaining;
}

-- The statuses that end the wait.
abbrev pub ends_wait : Status → Bool
ends_wait succeeded = true
ends_wait failed = true
ends_wait uploading = false
ends_wait queued = false
ends_wait leased = false
ends_wait running = false
ends_wait expired = false
ends_wait canceled = false

abbrev pub is_left : ℤ → Bool
is_left (pos zero) = false
is_left (pos (suc n)) = true
is_left (negsuc n) = false

abbrev pub GoesOn : Status × ℤ → Type 0
GoesOn (status, remaining) = (ends_wait status ≡ false) × (is_left remaining ≡ true)

more-waiting :
    (poll_interval : ℕ) (remaining : ℤ) (rest : List ℕ × Waited)
    → ((wait_more poll_interval remaining rest).1 ≡ waiting)
      ↔ ((is_left remaining ≡ true) × (rest.1 ≡ waiting))
more-waiting p (pos zero) rest = (λ e. absurd (ground arith), λ e. absurd (ground arith))
more-waiting p (pos (suc n)) (sleeps, outcome) = (λ e. (refl, e), λ e. e.1)
more-waiting p (negsuc n) rest = (λ e. absurd (ground arith), λ e. absurd (ground arith))

unfinished :
    (p : ℕ) (remaining : ℤ) (rest : List ℕ × Waited)
    → ((wait_more p remaining rest).1 ≡ waiting)
      ↔ (((false ≡ false) × (is_left remaining ≡ true)) × (rest.1 ≡ waiting))
unfinished p n rest =
    let (to, back) = more-waiting p n rest in
    (λ e. ((refl, (to e).0), (to e).1), λ h. back (h.0.1, h.1))

round-waiting :
    (task : TaskView) (id : String) (p : ℕ) (r : Status × ℤ) (rest : List ℕ × Waited)
    → ((wait_round id p (round_of task r) rest).1 ≡ waiting) ↔ (GoesOn r × (rest.1 ≡ waiting))
round-waiting task id p (uploading, n) rest = unfinished p n rest
round-waiting task id p (queued, n) rest = unfinished p n rest
round-waiting task id p (leased, n) rest = unfinished p n rest
round-waiting task id p (running, n) rest = unfinished p n rest
round-waiting task id p (succeeded, n) rest =
    (λ e. absurd (ground arith), λ e. absurd (ground arith))
round-waiting task id p (failed, n) rest = (λ e. absurd (ground arith), λ e. absurd (ground arith))
round-waiting task id p (expired, n) rest = unfinished p n rest
round-waiting task id p (canceled, n) rest = unfinished p n rest

-- For a task of the server, a wait that sees it in each round is still going on exactly when time
-- was left in every round and in none the task had succeeded or failed; so it goes on while the
-- task is canceled or expired.
pub wait_for_result-waiting :
    (task : TaskView) (task_id : String) (poll_interval : ℕ) (rounds : List (Status × ℤ))
    → ((wait_for_result task_id poll_interval (map (round_of task) rounds)).1 ≡ waiting)
      ↔ All GoesOn rounds
unfolding wait_for_result
wait_for_result-waiting task id p [] = (λ e. tt, λ h. refl)
wait_for_result-waiting task id p (r ∷ rounds) =
    let (to, back) =
      round-waiting task id p r (wait_for_result id p (map (round_of task) rounds)) in
    let (to_rest, back_rest) = wait_for_result-waiting task id p rounds in
    (λ e. ((to e).0, to_rest (to e).1), λ h. back (h.0, back_rest h.1))
