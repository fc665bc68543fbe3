-- ===== src/Server/Tests/Quotas.antt =====
-- The theorem on the quotas, applied to a device that submits twice and a worker that takes one task.
use model_courier.Prelude.{ℕ, List, [], ◌∷◌, some, refl}
use model_courier.Contracts.{TaskEnvelope}
use model_courier.Server.Db.{empty}
use model_courier.Server.Lifecycle.Calls.{ensures_owner, ensures_device, finalizes, claims, sweeps}
use model_courier.Server.Tokens.{Principal, device}
use model_courier.Server.Quotas.Histories.{
  Request, submits, calls, serve_all, IsWithin, serve_all-empty-IsWithin,
}
use model_courier.Server.Tests.{sha256, sound, envelope, both}

abbrev camera : Principal
camera = record { kind = device; subject_id = "d"; owner_id = "o" }

abbrev second : TaskEnvelope
second = record envelope { idempotency_key = "other" }

abbrev requests : List (ℕ × Request)
requests =
    (0, calls (ensures_owner "o"))
    ∷ (0, calls (ensures_device "o" "d" "h"))
    ∷ (10, submits 6000000000 "t" camera envelope)
    ∷ (11, calls (finalizes "a1" "t" sound "digest" (some "incoming/t/a1-speech.wav")))
    ∷ (12, calls (claims "w1" both "token1"))
    ∷ (13, submits 6000000000 "u" camera second)
    ∷ (700, calls sweeps)
    ∷ []

serve_all-empty-IsWithin_example : IsWithin (serve_all sha256 (λ e. "digest") requests empty).tasks
serve_all-empty-IsWithin_example =
    serve_all-empty-IsWithin sha256 (λ e. "digest") requests
      (refl, (refl, (tt, (refl, (refl, (tt, (refl, tt)))))))
