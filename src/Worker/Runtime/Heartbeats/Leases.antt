-- ===== src/Worker/Runtime/Heartbeats/Leases.antt =====
-- The heartbeats of a worker at the server: what they make of its lease.
use model_courier.Prelude.{
  ℕ, ◌+◌, ◌≤◌, ◌<◌, ◌≡◌, refl, String, List, [], ◌∷◌, ◌++◌, some, All, map, arith,
}
use model_courier.Contracts.{CapabilityManifest}
use model_courier.Server.Exec.{ok}
use model_courier.Server.Db.{Db, TaskRow}
use model_courier.Server.Repository.{Lease, find_task, lease_seconds}
use model_courier.Server.Repository.Claim.{claim_next}
use model_courier.Server.Repository.Leases.{check_lease}
use model_courier.Server.Lifecycle.Calls.{Call, run, beats}
use model_courier.Server.Lifecycle.History.{IsWellFormed}
use model_courier.Server.Keeping.Steps.{renews, spares}
use model_courier.Server.Keeping.Turns.{IsTimely, presents_self, claim_next-check_lease}
use model_courier.Worker.Runtime.Heartbeats.{Round, stopped, answered, failed, heartbeat_loop}

-- The rounds after the last heartbeat that is answered: the stop event or a failure, if there is one.
pub data Ends : List Round → Type 0 where
  over : Ends []
  stops : (later : List Round) → Ends (stopped ∷ later)
  breaks : (later : List Round) → Ends (failed ∷ later)

-- The time until the last of these answers.
unfoldable pub elapsed : (heartbeat_seconds : ℕ) → List ℕ → ℕ
elapsed heartbeat_seconds [] = 0
elapsed heartbeat_seconds (delay ∷ delays) =
    heartbeat_seconds + delay + elapsed heartbeat_seconds delays

abbrev pub answers_then : List ℕ → List Round → List Round
answers_then delays rest = map answered delays ++ rest

abbrev pub beats_at : Lease → List ℕ → List (ℕ × Call)
beats_at lease times = map (λ at. (at, beats lease)) times

module _ (lease : Lease) (h deadline end : ℕ) where
  Ends-IsTimely :
      (rest : List Round) (now : ℕ)
      → Ends rest
      → end < now + lease_seconds
      → end < deadline
      → IsTimely lease deadline now now (beats_at lease (heartbeat_loop h now rest)) end
  unfolding heartbeat_loop IsTimely
  Ends-IsTimely rest now over e d = (e, d)
  Ends-IsTimely rest now (stops later) e d = (e, d)
  Ends-IsTimely rest now (breaks later) e d = (e, d)

  heartbeat_loop-IsTimely :
      (delays : List ℕ) (rest : List Round) (now : ℕ)
      → Ends rest
      → All (λ delay. h + delay < lease_seconds) delays
      → now + elapsed h delays ≤ end
      → end < now + elapsed h delays + lease_seconds
      → end < deadline
      → IsTimely lease deadline now now
          (beats_at lease (heartbeat_loop h now (answers_then delays rest)))
          end
  unfolding elapsed heartbeat_loop IsTimely spares renews
  heartbeat_loop-IsTimely [] rest now r p l e d = Ends-IsTimely rest now r (omega arith) d
  heartbeat_loop-IsTimely (delay ∷ delays) rest now r p l e d =
      let at = now + h + delay in
      let prompt = p.0 in
      (
        omega arith,
        omega arith,
        omega arith,
        refl,
        rw (presents_self lease)
            (heartbeat_loop-IsTimely delays rest at r p.1 (omega arith) (omega arith) d),
      )

-- On a well-formed database, after a claim that returns a lease on a task, if the worker's loop
-- from the time of the claim meets answers of given delays and then ends or fails, and the interval
-- with each delay is less than 600 seconds, then with the heartbeats that the loop sends the lease
-- is still current at every time from that of the last answer, which is the sum of the intervals
-- and delays after the claim, until 600 seconds later, as long as it is before the task's deadline.
pub claim_next-heartbeat_loop :
    (sha256 : String → String) (w : String) (cs : List CapabilityManifest) (token : String)
    (now end heartbeat_seconds : ℕ) (delays : List ℕ) (rest : List Round) (db after : Db)
    (lease : Lease) (row : TaskRow)
    → IsWellFormed db
    → claim_next sha256 w cs token now db ≡ (ok (some lease), after)
    → find_task lease.task_id after ≡ some row
    → Ends rest
    → All (λ delay. heartbeat_seconds + delay < 600) delays
    → now + elapsed heartbeat_seconds delays ≤ end
    → end < now + elapsed heartbeat_seconds delays + 600
    → end < row.execution_deadline
    → (x : TaskRow) × (check_lease sha256 lease end (
          run sha256
            (beats_at lease (heartbeat_loop heartbeat_seconds now (answers_then delays rest)))
            after)
        ≡ ok x)
claim_next-heartbeat_loop sha256 w cs token now end h delays rest db after lease row v e f r p l t
      d =
    let (x, found, own, current) =
      claim_next-check_lease sha256 w cs token now db after lease row lease
        (beats_at lease (heartbeat_loop h now (answers_then delays rest))) end (presents_self lease)
        refl v e f
        (heartbeat_loop-IsTimely lease h row.execution_deadline end delays rest now r p l t d) in
    (x, current)
