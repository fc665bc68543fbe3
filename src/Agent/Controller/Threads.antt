-- ===== src/Agent/Controller/Threads.antt =====
-- About agent/runtime.py: how many threads are alive, and what the state says of the newest.
use model_courier.Prelude.{
  ◌≡◌, refl, inl, inr, ℕ, zero, suc, Bool, true, false, List, [], ◌∷◌, All, if◌then◌else◌,
  Bool-cases, arith, ◌-◌,
}
use model_courier.Agent.Controller.{
  Controller, Thread, Phase, created, looping, raised, returned, leaving, over, RuntimeState,
  unconfigured, stopped, starting, running, error, is_alive, new_controller, start, stop_request,
  alter, thread_at, is_joined, state_joined, stop_finish, next_phase, state_reported, run_thread,
  Event, start_called, stop_called, joined, thread_moved, step, run,
}

abbrev pub is_running : Phase → Bool
is_running created = false
is_running looping = true
is_running raised = true
is_running returned = true
is_running leaving = false
is_running over = false

abbrev pub is_created : Phase → Bool
is_created created = true
is_created looping = false
is_created raised = false
is_created returned = false
is_created leaving = false
is_created over = false

abbrev pub is_past : Phase → Bool
is_past created = false
is_past looping = false
is_past raised = false
is_past returned = false
is_past leaving = true
is_past over = true

-- What the state says of the newest thread's phase.
abbrev pub agrees : RuntimeState → Phase → Bool
agrees unconfigured phase = false
agrees stopped phase = true
agrees starting phase = is_created phase
agrees running phase = is_running phase
agrees error phase = is_past phase

abbrev pub idle_state : Bool → RuntimeState
idle_state configured = if configured then stopped else unconfigured

abbrev pub IsOver : Thread → Type 0
IsOver t = t.phase ≡ over

-- Without a thread the controller is as it was made; with one, every older thread is over, a worker
-- is configured, and the state agrees with the newest thread.
abbrev pub IsSoundWith : Bool → RuntimeState → List Thread → Type 0
IsSoundWith configured state [] = state ≡ idle_state configured
IsSoundWith configured state (t ∷ ts) =
    All IsOver ts × (configured ≡ true) × (agrees state t.phase ≡ true)

abbrev pub IsSound : Controller → Type 0
IsSound c = IsSoundWith c.configured c.state c.threads

agrees-move :
    (raises : Bool) (state : RuntimeState) (phase : Phase)
    → agrees state phase ≡ true
    → agrees (state_reported phase state) (next_phase raises phase) ≡ true
agrees-move raises state created e = refl
agrees-move true unconfigured looping e = e
agrees-move true stopped looping e = refl
agrees-move true starting looping e = absurd (ground arith)
agrees-move true running looping e = refl
agrees-move true error looping e = absurd (ground arith)
agrees-move false unconfigured looping e = e
agrees-move false stopped looping e = refl
agrees-move false starting looping e = absurd (ground arith)
agrees-move false running looping e = refl
agrees-move false error looping e = absurd (ground arith)
agrees-move raises state raised e = refl
agrees-move raises state returned e = refl
agrees-move raises unconfigured leaving e = e
agrees-move raises stopped leaving e = refl
agrees-move raises starting leaving e = absurd (ground arith)
agrees-move raises running leaving e = absurd (ground arith)
agrees-move raises error leaving e = refl
agrees-move raises state over e = e

-- A thread that is over stays so and reports nothing.
alter-over :
    (raises : Bool) (age : ℕ) (ts : List Thread)
    → All IsOver ts
    → All IsOver (alter age (λ t. record t { phase = next_phase raises t.phase }) ts)
      × ((thread_at age ts).phase ≡ over)
unfolding alter thread_at
alter-over raises age [] h = (tt, refl)
alter-over raises zero (t ∷ ts) h = ((rw h.0 refl, h.1), h.0)
alter-over raises (suc age) (t ∷ ts) h =
    let (rest, o) = alter-over raises age ts h.1 in ((h.0, rest), o)

alter-joins :
    (f : ℕ → ℕ) (age : ℕ) (ts : List Thread)
    → All IsOver ts
    → All IsOver (alter age (λ t. record t { joins = f t.joins }) ts)
unfolding alter
alter-joins f age [] h = tt
alter-joins f zero (t ∷ ts) h = h
alter-joins f (suc age) (t ∷ ts) h = (h.0, alter-joins f age ts h.1)

agrees-join :
    (state : RuntimeState) (phase joined_phase : Phase)
    → agrees state phase ≡ true
    → agrees (state_joined joined_phase state) phase ≡ true
agrees-join state phase joined_phase e = elim (Bool-cases (is_alive joined_phase)) [
  | inl t ↦ rw (t, e) refl
  | inr t ↦ rw t refl
]

abbrev made : Bool → List Thread → Bool → RuntimeState → Controller
made configured threads stop_event state = record {
  configured = configured;
  threads = threads;
  stop_event = stop_event;
  state = state;
}

is_alive-over : (p : Phase) → is_alive p ≡ false → p ≡ over
is_alive-over created q = absurd (ground arith)
is_alive-over looping q = absurd (ground arith)
is_alive-over raised q = absurd (ground arith)
is_alive-over returned q = absurd (ground arith)
is_alive-over leaving q = absurd (ground arith)
is_alive-over over q = refl

start-IsSound :
    (k : Bool) (ts : List Thread) (e : Bool) (s : RuntimeState)
    → IsSoundWith k s ts
    → IsSound (start (made k ts e s)).1
unfolding start
start-IsSound false ts e s h = h
start-IsSound true [] e s h = (tt, refl, refl)
start-IsSound true (t ∷ ts) e s h = elim (Bool-cases (is_alive t.phase)) [
  | inl q ↦ rw q h
  | inr q ↦ rw q ((is_alive-over t.phase q, h.0), refl, refl)
]

stop_request-IsSound :
    (k : Bool) (ts : List Thread) (e : Bool) (s : RuntimeState)
    → IsSoundWith k s ts
    → IsSound (stop_request (made k ts e s))
unfolding stop_request
stop_request-IsSound false [] e s h = h
stop_request-IsSound true [] e s h = refl
stop_request-IsSound k (t ∷ ts) e s h = h

run_thread-IsSound :
    (raises : Bool) (age : ℕ) (k : Bool) (ts : List Thread) (e : Bool) (s : RuntimeState)
    → IsSoundWith k s ts
    → IsSound (run_thread raises age (made k ts e s))
unfolding run_thread alter thread_at
run_thread-IsSound raises age k [] e s h = h
run_thread-IsSound raises zero k (t ∷ ts) e s h = (h.0, h.1, agrees-move raises s t.phase h.2)
run_thread-IsSound raises (suc age) k (t ∷ ts) e s h =
    let (rest, o) = alter-over raises age ts h.0 in (rest, h.1, rw o h.2)

finished-IsSound :
    (age : ℕ) (k : Bool) (ts : List Thread) (s : RuntimeState)
    → is_joined (thread_at age ts).joins ≡ true
    → IsSoundWith k s ts
    → IsSoundWith k
        (state_joined (thread_at age ts).phase s)
        (alter age (λ t. record t { joins = t.joins - 1 }) ts)
unfolding alter thread_at
finished-IsSound age k [] s j h = absurd (ground arith)
finished-IsSound zero k (t ∷ ts) s j h = (h.0, h.1, agrees-join s t.phase t.phase h.2)
finished-IsSound (suc age) k (t ∷ ts) s j h =
    (alter-joins (λ n. n - 1) age ts h.0, h.1, agrees-join s t.phase (thread_at age ts).phase h.2)

stop_finish-IsSound : (age : ℕ) (c : Controller) → IsSound c → IsSound (stop_finish age c)
unfolding stop_finish
stop_finish-IsSound age c h = elim (Bool-cases (is_joined (thread_at age c.threads).joins)) [
  | inl t ↦ rw t (finished-IsSound age c.configured c.threads c.state t h)
  | inr t ↦ rw t h
]

step-IsSound : (e : Event) (c : Controller) → IsSound c → IsSound (step e c)
unfolding step
step-IsSound start_called c h = start-IsSound c.configured c.threads c.stop_event c.state h
step-IsSound stop_called c h = stop_request-IsSound c.configured c.threads c.stop_event c.state h
step-IsSound (joined age) c h = stop_finish-IsSound age c h
step-IsSound (thread_moved raises age) c h =
    run_thread-IsSound raises age c.configured c.threads c.stop_event c.state h

-- After any sequence of starts, stops, returns of joins and moves of the worker's threads, every
-- thread but the newest is over; a state of starting means that the newest is before its first
-- lock, of running that it is between that and its last, of error that it is past its last; without
-- a thread the state is the one it was made with, and with one it is not unconfigured.
pub run-IsSound :
    (events : List Event) (configured : Bool) → IsSound (run events (new_controller configured))
unfolding run new_controller
run-IsSound events configured = from events (new_controller configured) refl
  where
    from : (events : List Event) (c : Controller) → IsSound c → IsSound (run events c)
    from [] c h = h
    from (e ∷ es) c h = from es (step e c) (step-IsSound e c h)
