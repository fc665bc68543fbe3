-- ===== src/Sdk/Requests.antt =====
-- About `_request` of the SDK's client: which attempt decides, and what the client does before it.
use model_courier.Prelude.{
  ℕ, zero, suc, ◌+◌, ◌≤◌, ◌≡◌, refl, sym, ap, ◌∙◌, ◌⊎◌, inl, inr, Bool, true, false, String, Option,
  none, some, List, [], ◌∷◌, All, arith, not, Bool-cases, if◌then◌else◌,
}
use model_courier.Agent.Json.{Value}
use model_courier.Sdk.{
  Reply, Attempt, transport_error, replied, Action, requests, Outcome, transport_raised,
  is_transient, nap, checked, request_from, request,
}

-- An attempt that ends the loop at once.
abbrev pub is_settled : Attempt → Bool
is_settled transport_error = false
is_settled (replied r) = not (is_transient r.status_code)

-- The numbers from `start`, `n` of them.
abbrev pub from : ℕ → ℕ → List ℕ
from start zero = []
from start (suc n) = start ∷ from (start + 1) n

-- What the client does at the attempts before the one that decides, and at that one: a transient
-- response is slept on also when it is the last.
abbrev pub tries : ℕ → List ℕ → List Action → List Action
tries retry_backoff [] rest = rest
tries retry_backoff (i ∷ is) rest = requests i ∷ nap retry_backoff i (tries retry_backoff is rest)

abbrev pub deciding : ℕ → ℕ → Attempt → List Action
deciding retry_backoff k transport_error = requests k ∷ []
deciding retry_backoff k (replied r) =
    requests k ∷ (if is_transient r.status_code then nap retry_backoff k [] else [])

module _ (show : Value → String) where
  abbrev pub outcome_of : Attempt → Outcome
  outcome_of transport_error = transport_raised
  outcome_of (replied r) = checked show r

  -- The attempt `decider` decides: none from `start` up to it is settled, and it is settled or the last.
  pub record Decides (retry_backoff : ℕ) (server : ℕ → Attempt) (start left : ℕ)
      (run : List Action × Outcome) : Type 0 where
    pub passed : ℕ
    pub decider : ℕ
    pub at : decider ≡ start + passed
    pub within : passed ≤ left
    pub unsettled : All (λ i. is_settled (server i) ≡ false) (from start passed)
    pub ends : (is_settled (server decider) ≡ true) ⊎ (passed ≡ left)
    pub runs : run ≡ (
      tries retry_backoff (from start passed) (deciding retry_backoff decider (server decider)),
      outcome_of (server decider),
    )

  abbrev the_pair : ℕ → ℕ → List Action × Outcome → List Action × Outcome
  the_pair b start run = (requests start ∷ nap b start run.0, run.1)

  abbrev the_end : ℕ → ℕ → Attempt → List Action × Outcome
  the_end b start a = (deciding b start a, outcome_of a)

  -- One attempt more before those that a run makes.
  after_attempt :
      (b : ℕ) (server : ℕ → Attempt) (start left : ℕ) (run : List Action × Outcome)
      → is_settled (server start) ≡ false
      → Decides b server (start + 1) left run
      → Decides b server start (suc left) (requests start ∷ nap b start run.0, run.1)
  after_attempt b server start left run e d = record {
    passed = suc d.passed;
    decider = d.decider;
    at = let h = d.at in omega arith;
    within = let h = d.within in omega arith;
    unsettled = (e, d.unsettled);
    ends = elim d.ends [ inl t ↦ inl t | inr t ↦ inr (ap suc t) ];
    runs = ap (λ (p : List Action × Outcome). the_pair b start p) d.runs;
  }

  last_is :
      (b : ℕ) (server : ℕ → Attempt) (start left : ℕ) (a : Attempt)
      → server start ≡ a
      → (is_settled (server start) ≡ true) ⊎ (0 ≡ left)
      → Decides b server start left (deciding b start a, outcome_of a)
  last_is b server start left a e ends = record {
    passed = 0;
    decider = start;
    at = omega arith;
    within = omega arith;
    unsettled = tt;
    ends = ends;
    runs = ap (λ (x : Attempt). the_end b start x) (sym e);
  }

  request_from-Decides :
      (b : ℕ) (server : ℕ → Attempt) (left start : ℕ) (response : Option Reply) (a : Attempt)
      → server start ≡ a
      → Decides b server start left (request_from show b server left start response a)
  unfolding request_from
  request_from-Decides b server zero start response transport_error e =
      last_is b server start zero transport_error e (inr refl)
  request_from-Decides b server zero start response (replied r) e =
      elim (Bool-cases (is_transient r.status_code)) [
        | inl t ↦ rw t (rw t at (last_is b server start zero (replied r) e (inr refl)))
        | inr t ↦ rw t (rw t at (last_is b server start zero (replied r) e (inr refl)))
      ]
  request_from-Decides b server (suc left) start response transport_error e =
      after_attempt b server start left _ (ap is_settled e)
        (request_from-Decides b server left (start + 1) response (server (start + 1)) refl)
  request_from-Decides b server (suc left) start response (replied r) e =
      elim (Bool-cases (is_transient r.status_code)) [
        | inl t ↦ rw t (
            after_attempt b server start left _ (ap is_settled e ∙ ap not t)
              (request_from-Decides b server left (start + 1) (some r) (server (start + 1)) refl))
        | inr t ↦ rw t (
            rw t at
              (last_is b server start (suc left) (replied r) e (inl (ap is_settled e ∙ ap not t))))
      ]

  -- A request is decided by its first attempt that brings a response of no transient status, or by
  -- the last one it may make: it sends exactly the attempts up to that one, sleeps, unless the
  -- backoff is 0, after each of them that does not end the loop and after a transient response of
  -- the last, twice as long each time, and ends as that attempt says; the assertion never fails.
  pub request-Decides :
      (max_retries retry_backoff : ℕ) (server : ℕ → Attempt)
      → Decides retry_backoff server 0 max_retries (request show max_retries retry_backoff server)
  unfolding request
  request-Decides max_retries retry_backoff server =
      request_from-Decides retry_backoff server max_retries 0 none (server 0) refl
