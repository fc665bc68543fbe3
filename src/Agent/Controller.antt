-- ===== src/Agent/Controller.antt =====
-- agent/runtime.py: the controller of the worker's thread. The threads are listed with the newest
-- first, the controller's `_thread`; a step is what one of them or one caller does between two
-- acquisitions of the lock, and any sequence of steps is a run.
pub mod Threads
use model_courier.Prelude.{ℕ, zero, suc, ◌+◌, ◌-◌, Bool, true, false, List, [], ◌∷◌, if◌then◌else◌}

pub data RuntimeState : Type 0 where
  unconfigured : RuntimeState
  stopped : RuntimeState
  starting : RuntimeState
  running : RuntimeState
  error : RuntimeState

-- Where a thread is in `_run`: before the first lock, in `run_forever`, after it has raised or has
-- returned, past the last lock, and over, which is when `is_alive` is false.
pub data Phase : Type 0 where
  created : Phase
  looping : Phase
  raised : Phase
  returned : Phase
  leaving : Phase
  over : Phase

-- A thread, with the number of the `stop` calls that wait in its `join`.
pub record Thread : Type 0 where
  pub phase : Phase
  pub joins : ℕ

-- `configured` is `self._worker is not None`; `stop_event` is whether the event of the newest thread
-- is set.
pub record Controller : Type 0 where
  pub configured : Bool
  pub threads : List Thread
  pub stop_event : Bool
  pub state : RuntimeState

-- `not_configured` and `still_stopping` are the two RuntimeUnavailable.
pub data StartResult : Type 0 where
  not_configured : StartResult
  still_stopping : StartResult
  already_started : StartResult
  started : StartResult

unfoldable pub new_controller : Bool → Controller
new_controller configured = record {
  configured = configured;
  threads = [];
  stop_event = false;
  state = if configured then stopped else unconfigured;
}

abbrev pub is_alive : Phase → Bool
is_alive created = true
is_alive looping = true
is_alive raised = true
is_alive returned = true
is_alive leaving = true
is_alive over = false

-- `self._thread is not None and self._thread.is_alive()`
abbrev pub has_live_thread : List Thread → Bool
has_live_thread [] = false
has_live_thread (t ∷ ts) = is_alive t.phase

unfoldable pub start : Controller → StartResult × Controller
start c =
    if c.configured
    then (if has_live_thread c.threads
        then (if c.stop_event then still_stopping else already_started, c)
        else (
          started,
          record c {
            threads = record { phase = created; joins = 0 } ∷ c.threads;
            stop_event = false;
            state = starting;
          },
        ))
    else (not_configured, c)

-- `stop` up to its `join`
abbrev pub stop_newest : Controller → List Thread → Controller
stop_newest c [] = if c.configured then record c { state = stopped } else c
stop_newest c (t ∷ ts) = record c {
  threads = record t { joins = 1 + t.joins } ∷ ts;
  stop_event = true;
}

unfoldable pub stop_request : Controller → Controller
stop_request c = stop_newest c c.threads

unfoldable pub alter : ℕ → (Thread → Thread) → List Thread → List Thread
alter age f [] = []
alter zero f (t ∷ ts) = f t ∷ ts
alter (suc age) f (t ∷ ts) = t ∷ alter age f ts

unfoldable pub thread_at : ℕ → List Thread → Thread
thread_at age [] = record { phase = over; joins = 0 }
thread_at zero (t ∷ ts) = t
thread_at (suc age) (t ∷ ts) = thread_at age ts

-- `stop` after its `join` of a thread, which has ended or timed out
abbrev pub is_joined : ℕ → Bool
is_joined zero = false
is_joined (suc n) = true

abbrev pub state_joined : Phase → RuntimeState → RuntimeState
state_joined phase state = if is_alive phase then state else stopped

unfoldable pub stop_finish : ℕ → Controller → Controller
stop_finish age c =
    if is_joined (thread_at age c.threads).joins
    then record c {
      threads = alter age (λ t. record t { joins = t.joins - 1 }) c.threads;
      state = state_joined (thread_at age c.threads).phase c.state;
    }
    else c

-- `_run`: `raises` says how `run_forever` ends.
abbrev pub next_phase : Bool → Phase → Phase
next_phase raises created = looping
next_phase raises looping = if raises then raised else returned
next_phase raises raised = leaving
next_phase raises returned = leaving
next_phase raises leaving = over
next_phase raises over = over

abbrev pub state_reported : Phase → RuntimeState → RuntimeState
state_reported created state = running
state_reported looping state = state
state_reported raised state = error
state_reported returned state = stopped
state_reported leaving state = state
state_reported over state = state

unfoldable pub run_thread : Bool → ℕ → Controller → Controller
run_thread raises age c = record c {
  threads = alter age (λ t. record t { phase = next_phase raises t.phase }) c.threads;
  state = state_reported (thread_at age c.threads).phase c.state;
}

pub data Event : Type 0 where
  start_called : Event
  stop_called : Event
  joined : (age : ℕ) → Event
  thread_moved : (raises : Bool) → (age : ℕ) → Event

unfoldable pub step : Event → Controller → Controller
step start_called c = (start c).1
step stop_called c = stop_request c
step (joined age) c = stop_finish age c
step (thread_moved raises age) c = run_thread raises age c

unfoldable pub run : List Event → Controller → Controller
run [] c = c
run (e ∷ es) c = run es (step e c)
