-- ===== src/Agent/Api/Verifying.antt =====
-- About `verify_model` of agent/api.py, with the calls that come between its beginning and its end.
use model_courier.Prelude.{
  ◌≡◌, ◌⊎◌, ◌≢◌, refl, sym, ap, ◌∙◌, inl, inr, String, Bool, true, false, Option, none, some, arith,
  Bool-cases, Option-cases, is_empty, ltb, length,
}
use model_courier.Contracts.{ProviderResult}
use model_courier.Server.Storage.{Bytes}
use model_courier.Agent.Models.{ModelBinding}
use model_courier.Agent.Store.{AgentStore, get_binding, binding_digest, mark_verified, is_verified}
use model_courier.Agent.Store.Marks.{mark_verified-is_verified}
use model_courier.Agent.Api.{
  Response, inference_succeeded, Begun, answers, runs, check_sample, max_sample_bytes,
  begin_verification, Ran, produced, ran_into, marked_answer, finish_verification,
}

abbrev binding_of : ModelBinding → Begun → ModelBinding
binding_of default (answers response) = default
binding_of default (runs b d) = b

abbrev digest_of : String → Begun → String
digest_of default (answers response) = default
digest_of default (runs b d) = d

abbrev begun_of : Begun → Option Begun → Begun
begun_of default none = default
begun_of default (some begun) = begun

abbrev result_of : ProviderResult → Response → ProviderResult
result_of default (inference_succeeded r) = r
result_of default _ = default

module _ (decode : String → ModelBinding) (digest : ModelBinding → String) where
  check_sample-runs :
      (content : Bytes) (b c : ModelBinding) (d k : String)
      → check_sample c k content ≡ runs b d
      → (c ≡ b) × (d ≡ k)
  check_sample-runs content b c d k e = elim (Bool-cases (is_empty content)) [
    | inl t ↦ absurd (let h = rw t at e in ground (arith, h))
    | inr t ↦ elim (Bool-cases (ltb max_sample_bytes (length content))) [
      | inl l ↦ absurd (let h = rw (t, l) at e in ground (arith, h))
      | inr l ↦ let h = rw (t, l) at e in (ap (binding_of c) h, sym (ap (digest_of k) h))
    ]
  ]

  binding_digest-cases :
      (i : String) (s : AgentStore)
      → (binding_digest decode digest i s ≡ none)
        ⊎ ((c : ModelBinding) × (get_binding decode digest i s ≡ some c)
            × (binding_digest decode digest i s ≡ some (digest c)))
  unfolding binding_digest
  binding_digest-cases i s = elim (Option-cases (get_binding decode digest i s)) [
    | inl n ↦ inl (rw (binding_digest, n) refl)
    | inr (c, n) ↦ inr (c, n, rw (binding_digest, n) refl)
  ]

  begin_verification-runs :
      (i : String) (content : Bytes) (b : ModelBinding) (d : String)
      (found digested marked after : AgentStore)
      → begin_verification decode digest i content found digested marked ≡ (some (runs b d), after)
      → (get_binding decode digest i found ≡ some b)
        × (c : ModelBinding) × (get_binding decode digest i digested ≡ some c)
        × (d ≡ digest c)
  unfolding begin_verification
  begin_verification-runs i content b d found digested marked after e =
      elim (Option-cases (get_binding decode digest i found)) [
        | inl n ↦ absurd (
            let h = rw (begin_verification, n) at e in
            ground (arith, ap (λ (p : Option Begun × AgentStore). p.0) h))
        | inr (q, n) ↦ elim (binding_digest-cases i digested) [
          | inl m ↦ absurd (
              let h = rw (begin_verification, n, m) at e in
              ground (arith, ap (λ (p : Option Begun × AgentStore). p.0) h))
          | inr (c, there, m) ↦
              let h = rw (begin_verification, n, m) at e in
              let sample : check_sample q (digest c) content ≡ runs b d =
                ap (λ (p : Option Begun × AgentStore). begun_of (runs b d) p.0) h in
              let (same, is_digest) = check_sample-runs content b q d (digest c) sample in
              (n ∙ ap some same, c, there, is_digest)
        ]
      ]

  marked_pair :
      (q r : ProviderResult) (p : Bool × AgentStore) (after : AgentStore)
      → ◌≡◌ {A = Response × AgentStore}
          (marked_answer decode digest q p.0, p.1)
          (inference_succeeded r, after)
      → (produced q ≡ produced r) × (p ≡ (true, after))
  marked_pair q r (true, s) after e = (
    ap (λ (a : Response × AgentStore). produced (result_of q a.0)) e,
    ap (λ (a : Response × AgentStore). (true, a.1)) e,
  )
  marked_pair q r (false, s) after e =
      absurd (ground (arith, ap (λ (p : Response × AgentStore). p.0) e))

  finish_verification-marks :
      (i d : String) (ran : Ran) (r : ProviderResult) (s after : AgentStore)
      → finish_verification decode digest i d ran s ≡ (inference_succeeded r, after)
      → (ran ≡ produced r) × (mark_verified decode digest i (some d) s ≡ (true, after))
  unfolding finish_verification
  finish_verification-marks i d (ran_into stage code message) r s after e =
      absurd (ground (arith, ap (λ (p : Response × AgentStore). p.0) e))
  finish_verification-marks i d (produced q) r s after e =
      marked_pair q r (mark_verified decode digest i (some d) s) after e

  -- If no binding has the empty digest, then for a verification that hands a binding to a run and
  -- ends in success, whatever stores its calls find: the binding is the one that was stored at its
  -- first read, the result that is answered is what the run came to, and the id is left verified,
  -- with a stored binding of the same digest as the one that was stored at its second read.
  pub finish_verification-is_verified :
      (i : String) (content : Bytes) (b : ModelBinding) (d : String) (ran : Ran)
      (r : ProviderResult) (found digested marked begun later after : AgentStore)
      → ((c : ModelBinding) → digest c ≢ "")
      → begin_verification decode digest i content found digested marked ≡ (some (runs b d), begun)
      → finish_verification decode digest i d ran later ≡ (inference_succeeded r, after)
      → (get_binding decode digest i found ≡ some b)
        × (ran ≡ produced r)
        × (is_verified decode digest i after ≡ true)
        × (c : ModelBinding) × (get_binding decode digest i digested ≡ some c)
        × (binding_digest decode digest i after ≡ some (digest c))
  finish_verification-is_verified i content b d ran r found digested marked begun later after ne
        started finished =
      let (here, c, there, is_digest) =
        begin_verification-runs i content b d found digested marked begun started in
      let (ran_well, is_marked) = finish_verification-marks i d ran r later after finished in
      let (verified, kept) = mark_verified-is_verified decode digest i d later after ne is_marked in
      (here, ran_well, verified, c, there, kept ∙ ap some is_digest)
