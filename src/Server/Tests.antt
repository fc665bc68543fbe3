-- ===== src/Server/Tests.antt =====
-- One small server, and the theorems on it: a device hands in a task, and two workers claim it.
pub mod Tasks
pub mod Holding
pub mod Reports
pub mod Quotas
pub mod Access
pub mod Answers
use Prim.Native.String.{◌++◌ as join}
use model_courier.Prelude.{ℕ, String, false, none, some, List, [], ◌∷◌}
use model_courier.Contracts.{
  ArtifactRef, TaskEnvelope, CapabilityManifest, ErrorEnvelope, ProviderResult,
}
use model_courier.Server.Db.{Db, empty}
use model_courier.Server.Repository.{Lease}
use model_courier.Server.Lifecycle.Calls.{
  Call, run, ensures_owner, ensures_device, ensures_worker, creates, finalizes,
}

abbrev pub sha256 : String → String
sha256 s = join "sha256:" s

abbrev pub sound : ArtifactRef
sound = record {
  artifact_id = some "a1";
  name = "speech.wav";
  mime = "audio/wav";
  size_bytes = some 3;
  sha256 = some "d1";
}

abbrev pub envelope : TaskEnvelope
envelope = record {
  protocol_version = "1";
  task_type = "audio.transcribe.v1";
  input_artifacts = sound ∷ [];
  options = "{}";
  requires = record { provider = some "whisper"; model = none; service_id = none; formats = [] };
  idempotency_key = "key";
  ttl_seconds = 3600;
}

abbrev pub vision : CapabilityManifest
vision = record {
  capability_id = "vision";
  task_type = "vision.detect.v1";
  provider = "detector";
  service_id = none;
  models = [];
  formats = [];
  max_concurrency = 1;
}

abbrev pub whisper : CapabilityManifest
whisper = record {
  capability_id = "whisper";
  task_type = "audio.transcribe.v1";
  provider = "whisper";
  service_id = none;
  models = "small" ∷ [];
  formats = "audio/wav" ∷ [];
  max_concurrency = 1;
}

abbrev pub both : List CapabilityManifest
both = vision ∷ whisper ∷ []

abbrev pub transcript : ProviderResult
transcript = record { schema_version = "1"; payload = "{}"; artifacts = []; result_digest = "r" }

abbrev pub submits : List (ℕ × Call)
submits =
    (0, ensures_owner "o")
    ∷ (0, ensures_device "o" "d" "h")
    ∷ (10, creates "t" "o" "d" envelope "digest")
    ∷ (11, finalizes "a1" "t" sound "digest" (some "incoming/t/a1-speech.wav"))
    ∷ []

abbrev pub ready : Db
ready = run sha256 submits empty

abbrev pub first_lease : Lease
first_lease = record {
  task_id = "t";
  owner_id = "o";
  worker_id = "w1";
  lease_generation = 1;
  lease_token = "token1";
  lease_until = 612;
  capability_id = "whisper";
  request = some envelope;
}
