-- ===== src/Worker/Runtime/Settling.antt =====
-- How a round of the worker ends for a task that it was offered.
use model_courier.Prelude.{
  ◌≡◌, refl, inl, inr, String, true, none, some, List, [], ◌∷◌, ◌++◌, if◌then◌else◌, Bool-cases,
  Option-cases, sym, subst,
}
use model_courier.Contracts.{ProviderResult}
use model_courier.Worker.Factory.{ProviderFactory, create}
use model_courier.Worker.ProcessRunner.{
  ProviderError, Outcome, result, failure, invalid, Reports, execute-Reports,
}
use model_courier.Worker.Runtime.{
  Offer, offered, Caught, provider_error, other, Request, polls, starts, downloads, publishes,
  fails, Run, leaves, succeeded, failed, message_of, error_of, World, publish, run_provider, work,
  report, run_offer, run_once,
}

module _ (Provider Config : Type 0) where
  module _ (w : World Provider Config) (offer : Offer) (provider : Provider) where
    -- What stops the handling of a task that was begun, and the requests up to there.
    pub data Misses : Caught → List Request → Type 0 where
      refused : (c : Caught) → w.validate provider offer.task ≡ some c → Misses c []
      no_input :
          (text : String)
          → w.validate provider offer.task ≡ none
          → w.download ≡ some text
          → Misses (other text) (downloads offer.task_id ∷ [])
      provider_failed :
          (e : ProviderError)
          → w.validate provider offer.task ≡ none
          → w.download ≡ none
          → Reports w.strip w.refusal (w.execution provider offer.task) (failure e)
          → Misses (provider_error e) (downloads offer.task_id ∷ [])
      no_result :
          (text : String)
          → w.validate provider offer.task ≡ none
          → w.download ≡ none
          → Reports w.strip w.refusal (w.execution provider offer.task) (invalid text)
          → Misses (other text) (downloads offer.task_id ∷ [])
      unpublished :
          (r : ProviderResult) (text : String)
          → w.validate provider offer.task ≡ none
          → w.download ≡ none
          → Reports w.strip w.refusal (w.execution provider offer.task) (result r)
          → w.publication ≡ some text
          → Misses (other text) (downloads offer.task_id ∷ publishes offer.task_id r ∷ [])

    -- How a task that was begun ends.
    pub data Settled : Run × List Request → Type 0 where
      publishes_result :
          (r : ProviderResult)
          → w.validate provider offer.task ≡ none
          → w.download ≡ none
          → Reports w.strip w.refusal (w.execution provider offer.task) (result r)
          → w.publication ≡ none
          → Settled
              (succeeded offer.task_id, downloads offer.task_id ∷ publishes offer.task_id r ∷ [])
      reports :
          (c : Caught) (before : List Request)
          → Misses c before
          → Settled (
            if w.failing then failed offer.task_id (message_of c) else leaves,
            before ++ fails offer.task_id (error_of offer.task_id c) ∷ [],
          )

    abbrev finished : Outcome → Run × List Request
    finished o =
        let (a, requests) = publish Provider Config w offer.task_id o in
        let (r, last) = report Provider Config w offer.task_id a in
        (r, downloads offer.task_id ∷ requests ++ last)

    run_offer-finished :
        w.validate provider offer.task ≡ none
        → w.download ≡ none
        → run_offer Provider Config w offer provider
          ≡ finished (run_provider Provider Config w offer provider)
    unfolding run_offer work
    run_offer-finished v d = rw (v, d, work) refl

    finished-published :
        (r : ProviderResult)
        → w.publication ≡ none
        → finished (result r)
          ≡ (succeeded offer.task_id, downloads offer.task_id ∷ publishes offer.task_id r ∷ [])
    finished-published r n = rw n refl

    finished-unpublished :
        (r : ProviderResult) (text : String)
        → w.publication ≡ some text
        → finished (result r) ≡ (
          if w.failing then failed offer.task_id text else leaves,
          downloads offer.task_id
              ∷ publishes offer.task_id r
              ∷ fails offer.task_id (error_of offer.task_id (other text))
              ∷ [],
        )
    finished-unpublished r text n = rw n refl

    run_offer-refused :
        (c : Caught)
        → w.validate provider offer.task ≡ some c
        → run_offer Provider Config w offer provider ≡ (
          if w.failing then failed offer.task_id (message_of c) else leaves,
          fails offer.task_id (error_of offer.task_id c) ∷ [],
        )
    unfolding run_offer work
    run_offer-refused c v = rw (v, work) refl

    run_offer-no_input :
        (text : String)
        → w.validate provider offer.task ≡ none
        → w.download ≡ some text
        → run_offer Provider Config w offer provider ≡ (
          if w.failing then failed offer.task_id text else leaves,
          downloads offer.task_id ∷ fails offer.task_id (error_of offer.task_id (other text)) ∷ [],
        )
    unfolding run_offer work
    run_offer-no_input text v d = rw (v, d, work) refl

    finished-Settled :
        (o : Outcome)
        → w.validate provider offer.task ≡ none
        → w.download ≡ none
        → Reports w.strip w.refusal (w.execution provider offer.task) o
        → Settled (finished o)
    finished-Settled (result r) v d x = elim (Option-cases w.publication) [
      | inl n ↦ subst Settled (sym (finished-published r n)) (publishes_result r v d x n)
      | inr (text, n) ↦
          subst Settled (sym (finished-unpublished r text n))
            (reports _ _ (unpublished r text v d x n))
    ]
    finished-Settled (failure e) v d x = reports _ _ (provider_failed e v d x)
    finished-Settled (invalid text) v d x = reports _ _ (no_result text v d x)

    run_offer-Settled : Settled (run_offer Provider Config w offer provider)
    run_offer-Settled = elim (Option-cases (w.validate provider offer.task)) [
      | inr (c, v) ↦ subst Settled (sym (run_offer-refused c v)) (reports c [] (refused c v))
      | inl v ↦ elim (Option-cases w.download) [
        | inr (text, d) ↦
            subst Settled (sym (run_offer-no_input text v d)) (reports _ _ (no_input text v d))
        | inl d ↦ subst Settled (sym (run_offer-finished v d)) (
            finished-Settled (run_provider Provider Config w offer provider) v d
              (execute-Reports w.strip w.refusal (w.execution provider offer.task)))
      ]
    ]

  -- The first two requests, and the rest.
  pub record Began (w : World Provider Config) (offer : Offer) (provider : Provider)
      (o : Run × List Request) : Type 0 where
    pub requests : List Request
    pub sent : o.1 ≡ polls ∷ starts offer.task_id ∷ requests
    pub settled : Settled w offer provider (o.0, requests)

  pub run_once-run_offer :
      (config : Config) (factory : ProviderFactory Provider Config) (w : World Provider Config)
      (offer : Offer) (provider : Provider)
      → w.poll ≡ offered offer
      → w.start ≡ true
      → create Provider Config offer.capability_id config factory ≡ some provider
      → run_once Provider Config config factory w ≡ (
        (run_offer Provider Config w offer provider).0,
        polls ∷ starts offer.task_id ∷ (run_offer Provider Config w offer provider).1,
      )
  unfolding run_once run_offer work
  run_once-run_offer config factory w offer provider p s c = rw (p, s, c, run_once) refl

  -- When the worker is offered a task, its start is answered and its provider is made, the requests
  -- after these are decided by the first thing that goes wrong: the provider refuses the task, and
  -- only that is reported; the download raises, and that is reported after it; the execution raises
  -- a ProviderError, crashes, hangs, dies or returns a result that is not valid, and the error that
  -- stands for this is reported after the download; the publication of the provider's validated
  -- result raises, and that is reported after it; or nothing goes wrong, and the round succeeds
  -- after the download and the publication. After a report the round fails with the text of what
  -- was caught, or is left by an exception if the report is not answered.
  pub run_once-Began :
      (config : Config) (factory : ProviderFactory Provider Config) (w : World Provider Config)
      (offer : Offer) (provider : Provider)
      → w.poll ≡ offered offer
      → w.start ≡ true
      → create Provider Config offer.capability_id config factory ≡ some provider
      → Began w offer provider (run_once Provider Config config factory w)
  run_once-Began config factory w offer provider p s c =
      subst (Began w offer provider)
        (sym (run_once-run_offer config factory w offer provider p s c))
        (record {
          requests = (run_offer Provider Config w offer provider).1;
          sent = refl;
          settled = run_offer-Settled w offer provider;
        })

  -- If the worker is offered a task for a capability that its factory does not have, an exception
  -- leaves the round after the start of the task, and no failure is reported.
  pub run_once-leaves :
      (config : Config) (factory : ProviderFactory Provider Config) (w : World Provider Config)
      (offer : Offer)
      → w.poll ≡ offered offer
      → create Provider Config offer.capability_id config factory ≡ none
      → run_once Provider Config config factory w ≡ (leaves, polls ∷ starts offer.task_id ∷ [])
  unfolding run_once
  run_once-leaves config factory w offer p c = elim (Bool-cases w.start) [
    | inl s ↦ rw (p, s, c, run_once) refl
    | inr s ↦ rw (p, s, run_once) refl
  ]
