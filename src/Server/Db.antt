-- ===== src/Server/Db.antt =====
-- src/model_courier/server/migrations/001_initial.sql and the rows that repository.py, auth.py and
-- quotas.py read and write. A time is a whole number of seconds; a column that may be NULL is an
-- option. `request` stands for `request_json`, `capabilities` for `capabilities_json`.
use model_courier.Prelude.{ℕ, String, Bool, Option, List, []}
use model_courier.Contracts.{TaskEnvelope, CapabilityManifest, ErrorEnvelope, ProviderResult}

pub record DeviceRow : Type 0 where
  pub id : String
  pub owner_id : String
  pub token_hash : String
  pub revoked_at : Option ℕ
  pub created_at : ℕ

pub record WorkerRow : Type 0 where
  pub id : String
  pub owner_id : String
  pub token_hash : String
  pub capabilities : List CapabilityManifest
  pub revoked_at : Option ℕ
  pub last_seen_at : Option ℕ
  pub created_at : ℕ

pub data Status : Type 0 where
  uploading queued leased running succeeded failed expired canceled : Status

-- What `error_json` holds: a dumped ErrorEnvelope, or an object with the field `code` alone.
pub data ErrorJson : Type 0 where
  envelope : ErrorEnvelope → ErrorJson
  code_only : String → ErrorJson

pub record TaskRow : Type 0 where
  pub id : String
  pub owner_id : String
  pub device_id : String
  pub task_type : String
  pub protocol_version : String
  pub request : TaskEnvelope
  pub request_digest : String
  pub idempotency_key : String
  pub requested_provider : Option String
  pub requested_model : Option String
  pub status : Status
  pub expires_at : ℕ
  pub execution_deadline : ℕ
  pub attempt : ℕ
  pub next_attempt_at : ℕ
  pub lease_owner : Option String
  pub lease_generation : ℕ
  pub lease_token_hash : Option String
  pub lease_until : Option ℕ
  pub bound_capability_id : Option String
  pub error_json : Option ErrorJson
  pub result_json : Option ProviderResult
  pub result_available : Bool
  pub result_expires_at : Option ℕ
  pub created_at : ℕ
  pub updated_at : ℕ

pub data ArtifactKind : Type 0 where
  input result : ArtifactKind

pub record ArtifactRow : Type 0 where
  pub id : String
  pub task_id : String
  pub kind : ArtifactKind
  pub name : String
  pub mime : String
  pub size_bytes : ℕ
  pub sha256 : String
  pub path : String
  pub published : Bool
  pub expires_at : ℕ
  pub created_at : ℕ

-- `details` is the `worker_id` of a `leased` event.
pub record TaskEvent : Type 0 where
  pub task_id : String
  pub event_type : String
  pub details : Option String
  pub created_at : ℕ

pub record OwnerRow : Type 0 where
  pub id : String
  pub created_at : ℕ

pub record Db : Type 0 where
  pub owners : List OwnerRow
  pub devices : List DeviceRow
  pub workers : List WorkerRow
  pub tasks : List TaskRow
  pub artifacts : List ArtifactRow
  pub events : List TaskEvent

abbrev pub empty : Db
empty = record { owners = []; devices = []; workers = []; tasks = []; artifacts = []; events = [] }
