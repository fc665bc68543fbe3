-- ===== src/Contracts.antt =====
-- src/model_courier/contracts: the task envelope, capabilities, results and errors.
-- Texts of JSON objects that the server only stores (options, payloads) stay texts.
pub mod Checks
pub mod Models
use model_courier.Prelude.{ℕ, String, Bool, Option, List}

pub record ArtifactRef : Type 0 where
  pub artifact_id : Option String
  pub name : String
  pub mime : String
  pub size_bytes : Option ℕ
  pub sha256 : Option String

pub record TaskRequirements : Type 0 where
  pub provider : Option String
  pub model : Option String
  pub service_id : Option String
  pub formats : List String

pub record CapabilityManifest : Type 0 where
  pub capability_id : String
  pub task_type : String
  pub provider : String
  pub service_id : Option String
  pub models : List String
  pub formats : List String
  pub max_concurrency : ℕ

pub record TaskEnvelope : Type 0 where
  pub protocol_version : String
  pub task_type : String
  pub input_artifacts : List ArtifactRef
  pub options : String
  pub requires : TaskRequirements
  pub idempotency_key : String
  pub ttl_seconds : ℕ

pub record ErrorEnvelope : Type 0 where
  pub code : String
  pub message : String
  pub retryable : Bool
  pub request_id : String

pub record ProviderResult : Type 0 where
  pub schema_version : String
  pub payload : String
  pub artifacts : List ArtifactRef
  pub result_digest : String
