-- ===== src/Contracts/Checks.antt =====
-- src/model_courier/contracts: the constraints that the models declare, tested in this order of
-- their fields, and the two patterns.
use Prim.Native.Char.{Char, code}
use model_courier.Prelude.{
  ℕ, String, Bool, true, Option, none, some, List, [], ◌∷◌, length, eqb, leb, ◌==◌, ◌&&◌, ◌||◌,
}
use model_courier.Prelude.Texts.{size}
use model_courier.Contracts.{
  ArtifactRef, TaskRequirements, CapabilityManifest, TaskEnvelope, ErrorEnvelope, ProviderResult,
}

-- `min_length` and `max_length`
abbrev pub is_within : ℕ → ℕ → String → Bool
is_within low high text = leb low (size text) && leb (size text) high

abbrev pub is_optional : {A : Type 0} → (A → Bool) → Option A → Bool
is_optional test none = true
is_optional test (some x) = test x

unfoldable pub are_all : {A : Type 0} → (A → Bool) → List A → Bool
are_all test [] = true
are_all test (x ∷ xs) = test x && are_all test xs

unfoldable pub is_made_of : (Char → Bool) → String → Bool
is_made_of test String.[] = true
is_made_of test (String.◌∷◌ c rest) = test c && is_made_of test rest

abbrev pub is_between : ℕ → ℕ → Char → Bool
is_between low high c = leb low (code c) && leb (code c) high

-- `[0-9a-f]`
abbrev pub is_hexadecimal : Char → Bool
is_hexadecimal c = is_between 48 57 c || is_between 97 102 c

-- `[A-Za-z0-9._:-]`
abbrev pub is_key_character : Char → Bool
is_key_character c =
    is_between 65 90 c
    || is_between 97 122 c
    || is_between 48 57 c
    || eqb (code c) 46
    || eqb (code c) 95
    || eqb (code c) 58
    || eqb (code c) 45

-- `_SHA256.fullmatch`
unfoldable pub is_sha256 : String → Bool
is_sha256 text = eqb (size text) 64 && is_made_of is_hexadecimal text

-- `_IDEMPOTENCY.fullmatch`
unfoldable pub is_idempotency_key : String → Bool
is_idempotency_key text = is_within 1 128 text && is_made_of is_key_character text

-- `TaskType`
unfoldable pub is_task_type : String → Bool
is_task_type text = text == "audio.transcribe.v1" || text == "vision.detect.v1"

unfoldable pub is_artifact : ArtifactRef → Bool
is_artifact a =
    is_optional (is_within 1 128) a.artifact_id
    && is_within 1 255 a.name
    && is_within 1 128 a.mime
    && is_optional is_sha256 a.sha256

unfoldable pub is_requirements : TaskRequirements → Bool
is_requirements r =
    is_optional (is_within 1 128) r.provider
    && is_optional (is_within 1 256) r.model
    && is_optional (is_within 1 128) r.service_id
    && leb (length r.formats) 16

unfoldable pub is_capability : CapabilityManifest → Bool
is_capability c =
    is_within 1 128 c.capability_id
    && is_task_type c.task_type
    && is_within 1 128 c.provider
    && is_optional (is_within 1 128) c.service_id
    && leb (length c.models) 32
    && leb (length c.formats) 32
    && leb 1 c.max_concurrency
    && leb c.max_concurrency 16

unfoldable pub is_envelope : TaskEnvelope → Bool
is_envelope e =
    e.protocol_version == "1"
    && is_task_type e.task_type
    && leb 1 (length e.input_artifacts)
    && leb (length e.input_artifacts) 8
    && are_all is_artifact e.input_artifacts
    && is_requirements e.requires
    && is_within 1 128 e.idempotency_key
    && is_idempotency_key e.idempotency_key
    && leb 1 e.ttl_seconds
    && leb e.ttl_seconds 604800

unfoldable pub is_error : ErrorEnvelope → Bool
is_error e = is_within 1 128 e.code && is_within 1 512 e.message && is_within 1 128 e.request_id

unfoldable pub is_result : ProviderResult → Bool
is_result r =
    is_within 1 64 r.schema_version
    && leb (length r.artifacts) 16
    && are_all is_artifact r.artifacts
    && is_within 64 64 r.result_digest
    && is_sha256 r.result_digest
