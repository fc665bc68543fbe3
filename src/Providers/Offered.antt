-- ===== src/Providers/Offered.antt =====
-- What the providers that come with the program make of the tasks that the server hands to a worker
-- that has them: `describe` against `_matches` and `validate`.
use model_courier.Prelude.{
  ℕ, ◌≡◌, refl, ap, ◌∙◌, String, true, Option, none, some, List, [], ◌∷◌, All, arith, eq_iff,
}
use model_courier.Prelude.Tables.Laws.{find-All}
use model_courier.Contracts.{CapabilityManifest, TaskEnvelope}
use model_courier.Server.Exec.{ok}
use model_courier.Server.Db.{Db, TaskRow, empty}
use model_courier.Server.Repository.{Lease, task_key}
use model_courier.Server.Repository.Matching.{matches, accepts}
use model_courier.Server.Repository.Claim.{claim_next}
use model_courier.Server.Lifecycle.Calls.{Call, run}
use model_courier.Server.Lifecycle.History.{run-empty-IsWellFormed}
use model_courier.Server.Claiming.{claim_next-Picks}
use model_courier.Server.Offering.{IsValidated, Accepted, run-Accepted}
use model_courier.Worker.ProcessRunner.{ProviderError}
use model_courier.Providers.Mock
use model_courier.Providers.Ultralytics
use model_courier.Providers.FasterWhisper
use model_courier.Providers.FunAsr

-- A provider's capability, with its `validate`.
pub data Bundled : CapabilityManifest → (TaskEnvelope → Option ProviderError) → Type 0 where
  mock_vision : Bundled Mock.describe Mock.validate
  mock_audio : Bundled Mock.audio_capability Mock.validate
  ultralytics : Bundled Ultralytics.describe Ultralytics.validate
  faster_whisper : Bundled FasterWhisper.describe FasterWhisper.validate
  fun_asr : Bundled FunAsr.describe FunAsr.validate

Bundled-validate :
    (c : CapabilityManifest) (validate : TaskEnvelope → Option ProviderError) (e : TaskEnvelope)
    → Bundled c validate
    → c.task_type ≡ e.task_type
    → validate e ≡ none
Bundled-validate c validate e mock_vision t = rw (← t) refl
Bundled-validate c validate e mock_audio t = rw (← t) refl
Bundled-validate c validate e ultralytics t = rw (← t) refl
Bundled-validate c validate e faster_whisper t = rw (← t) refl
Bundled-validate c validate e fun_asr t = rw (← t) refl

accepts-task_type :
    (row : TaskRow) (c : CapabilityManifest) → accepts row c ≡ true → c.task_type ≡ row.task_type
unfolding accepts
accepts-task_type row c e = (eq_iff c.task_type row.task_type).0 (ground arith)

matches-accepts :
    (row : TaskRow) (c d : CapabilityManifest)
    → matches row (c ∷ []) ≡ some d
    → accepts row c ≡ true
unfolding matches
matches-accepts row c d e = ground arith

-- If stripping a text twice is stripping it once, then after any history of calls on an empty
-- database in which every envelope handed in is one that a request body was validated to, a worker
-- that offers the one capability that a bundled provider describes (the mock provider with either
-- of its capabilities, Ultralytics, Faster-Whisper or FunASR) is handed only tasks that this
-- provider's validation lets pass.
pub claim_next-validate :
    (sha256 strip : String → String) (w : String) (c : CapabilityManifest)
    (validate : TaskEnvelope → Option ProviderError) (token : String) (now : ℕ)
    (history : List (ℕ × Call)) (lease : Lease) (after : Db)
    → ((text : String) → strip (strip text) ≡ strip text)
    → All (IsValidated sha256 strip) history
    → Bundled c validate
    → claim_next sha256 w (c ∷ []) token now (run sha256 history empty) ≡ (ok (some lease), after)
    → (e : TaskEnvelope) × (lease.request ≡ some e) × (validate e ≡ none)
claim_next-validate sha256 strip w c validate token now history lease after again v bundled e =
    let db = run sha256 history empty in
    let p =
      claim_next-Picks sha256 w (c ∷ []) token now db lease after
        (run-empty-IsWellFormed sha256 history).keyed e in
    let a =
      find-All task_key (Accepted sha256 strip) p.row.id db.tasks p.row p.found
        (run-Accepted sha256 strip again history empty tt v tt) in
    (
      p.row.request,
      ap (λ (l : Lease). l.request) p.lease_is,
      Bundled-validate c validate p.row.request bundled
          (accepts-task_type p.row c (matches-accepts p.row c p.capability p.matched) ∙ a.typed),
    )
