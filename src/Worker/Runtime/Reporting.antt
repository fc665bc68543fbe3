-- ===== src/Worker/Runtime/Reporting.antt =====
-- Which failures the worker can report: the server validates the report as an `ErrorEnvelope`.
use model_courier.Prelude.{
  ◌+◌, ◌≤◌, ◌≡◌, refl, ◌∙◌, ◌⊎◌, inl, inr, String, Bool, true, false, some, List, [], ◌∷◌, ◌++◌,
  leb, ◌&&◌, if◌then◌else◌, Bool-cases, arith,
}
use Prim.Native.String.{◌++◌ as join}
use model_courier.Prelude.Texts.{size, size-first_chars, size-join}
use model_courier.Contracts.Checks.{is_within, is_error}
use model_courier.Worker.Factory.{ProviderFactory, create}
use model_courier.Worker.Runtime.{
  Offer, offered, Caught, provider_error, other, Request, polls, starts, fails, leaves, caught,
  failed, message_of, error_of, World, work, run_offer, run_once, rounds,
}
use model_courier.Worker.Runtime.Settling.{run_once-run_offer}

size-worker : (task_id : String) → size (join "worker-" task_id) ≡ 7 + size task_id
unfolding size
size-worker task_id = size-join "worker-" task_id

-- What can be reported of an exception: any text that is not empty, and of a provider's own error
-- what the envelope has room for.
abbrev pub fits : Caught → Bool
fits (provider_error e) = is_within 1 128 e.code && is_within 1 512 e.message
fits (other text) = leb 1 (size text)

size-code : size "worker_execution_error" ≡ 22
unfolding size
size-code = refl

pub error_of-is_error :
    (task_id : String) (c : Caught) → size task_id ≤ 121 → is_error (error_of task_id c) ≡ fits c
unfolding is_error
error_of-is_error task_id (provider_error e) small = rw (size-worker task_id) (ground arith)
error_of-is_error task_id (other text) small =
    rw (size-worker task_id, size-first_chars 512 text, size-code) (ground arith)

module _ (Provider Config : Type 0) (w : World Provider Config) (offer : Offer)
    (provider : Provider) where
  run_offer-report :
      (c : Caught) (requests : List Request)
      → work Provider Config w offer provider ≡ (caught c, requests)
      → run_offer Provider Config w offer provider ≡ (
        if w.failing then failed offer.task_id (message_of c) else leaves,
        requests ++ fails offer.task_id (error_of offer.task_id c) ∷ [],
      )
  unfolding run_offer
  run_offer-report c requests e = rw (e, run_offer) refl

  -- When the worker is offered a task whose id has at most 121 characters, its start is answered,
  -- its provider is made, what follows ends in a caught exception, and the report of that is
  -- answered exactly if it is a valid error envelope: then the round fails with the exception's
  -- text if the text is not empty and, for a provider's own error, has at most 512 characters with
  -- a code of 1 to 128; otherwise an exception leaves the round and ends the worker's loop,
  -- whatever rounds were to come.
  pub run_once-fits :
      (config : Config) (factory : ProviderFactory Provider Config)
      (later : List (World Provider Config)) (c : Caught) (requests : List Request)
      → w.poll ≡ offered offer
      → w.start ≡ true
      → create Provider Config offer.capability_id config factory ≡ some provider
      → work Provider Config w offer provider ≡ (caught c, requests)
      → size offer.task_id ≤ 121
      → w.failing ≡ is_error (error_of offer.task_id c)
      → ((fits c ≡ true)
          × ((run_once Provider Config config factory w).0 ≡ failed offer.task_id (message_of c)))
        ⊎ ((fits c ≡ false)
            × ((run_once Provider Config config factory w).0 ≡ leaves)
            × (rounds Provider Config config factory (w ∷ later) ≡ (
              false,
              polls ∷ starts offer.task_id ∷ requests
                  ++ fails offer.task_id (error_of offer.task_id c) ∷ [],
            )))
  unfolding rounds
  run_once-fits config factory later c requests p s made e small server =
      let answered : w.failing ≡ fits c = server ∙ error_of-is_error offer.task_id c small in
      let round = run_once-run_offer Provider Config config factory w offer provider p s made in
      let report = run_offer-report c requests e in
      elim (Bool-cases (fits c)) [
        | inl t ↦ inl (t, rw (round, report, answered, t) refl)
        | inr t ↦
            inr (t, rw (round, report, answered, t) refl, rw (round, report, answered, t) refl)
      ]
