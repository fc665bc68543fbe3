-- ===== src/Worker/Runtime/Heartbeats.antt =====
-- worker/runtime.py: the thread that sends the heartbeats. A round is the wait of `heartbeat_seconds` and,
-- unless the stop event was set, a request: with the time until the server handles it, or a failure.
pub mod Leases
use model_courier.Prelude.{ℕ, ◌+◌, List, [], ◌∷◌}

pub data Round : Type 0 where
  stopped : Round
  answered : (delay : ℕ) → Round
  failed : Round

-- `_heartbeat_loop`, as the times of the heartbeats that are answered. The loop ends with the stop
-- event or the first failure.
unfoldable pub heartbeat_loop : (heartbeat_seconds now : ℕ) → List Round → List ℕ
heartbeat_loop heartbeat_seconds now [] = []
heartbeat_loop heartbeat_seconds now (stopped ∷ rounds) = []
heartbeat_loop heartbeat_seconds now (failed ∷ rounds) = []
heartbeat_loop heartbeat_seconds now (answered delay ∷ rounds) =
    let at = now + heartbeat_seconds + delay in at ∷ heartbeat_loop heartbeat_seconds at rounds
