-- ===== src/Contracts/Models.antt =====
-- src/model_courier/contracts: the validation of a body against a model. The argument `strip` is what
-- `str_strip_whitespace` makes of a text; the keys of
-- `options` are not stripped here. `ErrorEnvelope` strips nothing.
use model_courier.Prelude.{
  ◌≡◌, refl, sym, ap, ◌∙◌, String, Bool, true, Option, none, some, List, [], ◌∷◌, map, arith,
  if◌then◌else◌, Bool-cases, inl, inr,
}
use model_courier.Contracts.{
  ArtifactRef, TaskRequirements, CapabilityManifest, TaskEnvelope, ProviderResult,
}
use model_courier.Contracts.Checks.{is_artifact, is_capability, is_envelope, is_result}

abbrev pub checked : {A : Type 0} → (A → Bool) → A → Option A
checked test x = if test x then some x else none

pub checked_some :
    {A : Type 0} (test : A → Bool) (x y : A) → checked test x ≡ some y → (test x ≡ true) × (x ≡ y)
checked_some test x y e = elim (Bool-cases (test x)) [
  | inl t ↦ (t, ground (arith, rw t at e))
  | inr t ↦ absurd (let h = rw t at e in cc)
]

-- What a test accepted after a step that does nothing the second time, it accepts again.
checked_again :
    {A : Type 0} (test : A → Bool) (f : A → A)
    → ((x : A) → f (f x) ≡ f x)
    → (x y : A) → checked test (f x) ≡ some y
    → checked test (f y) ≡ some y
checked_again test f twice x y e =
    let (t, same) = checked_some test (f x) y e in
    let fixed : f y ≡ y = ap f (sym same) ∙ twice x ∙ same in
    rw fixed (ap (checked test) (sym same) ∙ e)

map-map :
    {A : Type 0} (f : A → A)
    → ((x : A) → f (f x) ≡ f x)
    → (xs : List A) → map f (map f xs) ≡ map f xs
map-map f h [] = refl
map-map f h (x ∷ xs) = rw (h x, map-map f h xs) refl

module _ (strip : String → String) where
  abbrev pub stripped : Option String → Option String
  stripped none = none
  stripped (some text) = some (strip text)

  abbrev pub strip_artifact : ArtifactRef → ArtifactRef
  strip_artifact a = record {
    artifact_id = stripped a.artifact_id;
    name = strip a.name;
    mime = strip a.mime;
    size_bytes = a.size_bytes;
    sha256 = stripped a.sha256;
  }

  abbrev pub validate_artifact : ArtifactRef → Option ArtifactRef
  validate_artifact raw = checked is_artifact (strip_artifact raw)

  abbrev pub strip_requirements : TaskRequirements → TaskRequirements
  strip_requirements r = record {
    provider = stripped r.provider;
    model = stripped r.model;
    service_id = stripped r.service_id;
    formats = map strip r.formats;
  }

  abbrev pub strip_capability : CapabilityManifest → CapabilityManifest
  strip_capability c = record {
    capability_id = strip c.capability_id;
    task_type = c.task_type;
    provider = strip c.provider;
    service_id = stripped c.service_id;
    models = map strip c.models;
    formats = map strip c.formats;
    max_concurrency = c.max_concurrency;
  }

  -- The literals are compared as they are.
  abbrev pub strip_envelope : TaskEnvelope → TaskEnvelope
  strip_envelope e = record e {
    input_artifacts = map strip_artifact e.input_artifacts;
    requires = strip_requirements e.requires;
    idempotency_key = strip e.idempotency_key;
  }

  -- `ProviderResult` strips nothing of its own, but its artifacts do.
  abbrev pub strip_result : ProviderResult → ProviderResult
  strip_result r = record r { artifacts = map strip_artifact r.artifacts }

  abbrev pub validate_capability : CapabilityManifest → Option CapabilityManifest
  validate_capability raw = checked is_capability (strip_capability raw)

  abbrev pub validate_envelope : TaskEnvelope → Option TaskEnvelope
  validate_envelope raw = checked is_envelope (strip_envelope raw)

  abbrev pub validate_result : ProviderResult → Option ProviderResult
  validate_result raw = checked is_result (strip_result raw)

  module _ (again : (text : String) → strip (strip text) ≡ strip text) where
    stripped-stripped : (o : Option String) → stripped (stripped o) ≡ stripped o
    stripped-stripped none = refl
    stripped-stripped (some text) = ap some (again text)

    strip_artifact-strip_artifact :
        (a : ArtifactRef) → strip_artifact (strip_artifact a) ≡ strip_artifact a
    strip_artifact-strip_artifact a =
        rw (again a.name, again a.mime, stripped-stripped a.artifact_id, stripped-stripped a.sha256)
          refl

    strip_requirements-strip_requirements :
        (r : TaskRequirements) → strip_requirements (strip_requirements r) ≡ strip_requirements r
    strip_requirements-strip_requirements r =
        rw
          (
            stripped-stripped r.provider,
            stripped-stripped r.model,
            stripped-stripped r.service_id,
            map-map strip again r.formats,
          )
          refl

    strip_envelope-strip_envelope :
        (e : TaskEnvelope) → strip_envelope (strip_envelope e) ≡ strip_envelope e
    strip_envelope-strip_envelope e =
        rw
          (
            map-map strip_artifact strip_artifact-strip_artifact e.input_artifacts,
            strip_requirements-strip_requirements e.requires,
            again e.idempotency_key,
          )
          refl

    strip_capability-strip_capability :
        (c : CapabilityManifest) → strip_capability (strip_capability c) ≡ strip_capability c
    strip_capability-strip_capability c =
        rw
          (
            again c.capability_id,
            again c.provider,
            stripped-stripped c.service_id,
            map-map strip again c.models,
            map-map strip again c.formats,
          )
          refl

    strip_result-strip_result :
        (r : ProviderResult) → strip_result (strip_result r) ≡ strip_result r
    strip_result-strip_result r =
        rw (map-map strip_artifact strip_artifact-strip_artifact r.artifacts) refl

    -- A body that was validated is accepted again, and unchanged.
    pub validate_envelope-validate_envelope :
        (raw e : TaskEnvelope) → validate_envelope raw ≡ some e → validate_envelope e ≡ some e
    validate_envelope-validate_envelope raw e =
        checked_again is_envelope strip_envelope strip_envelope-strip_envelope raw e

    pub validate_capability-validate_capability :
        (raw c : CapabilityManifest)
        → validate_capability raw ≡ some c
        → validate_capability c ≡ some c
    validate_capability-validate_capability raw c =
        checked_again is_capability strip_capability strip_capability-strip_capability raw c

    pub validate_result-validate_result :
        (raw r : ProviderResult) → validate_result raw ≡ some r → validate_result r ≡ some r
    validate_result-validate_result raw r =
        checked_again is_result strip_result strip_result-strip_result raw r
