-- ===== src/Agent/Http.antt =====
-- agent/http_adapter.py. Config has the checks of the configuration's fields; what the HTTP client
-- does is the argument `HttpAnswer`. `loads` decodes and parses the content.
pub mod Config
use Prim.Native.String.{◌++◌ as join}
use model_courier.Prelude.{
  ℕ, String, Bool, true, false, Option, none, some, List, [], ◌∷◌, ◌++◌, length, not, ltb, leb,
  ◌==◌, ◌&&◌, if◌then◌else◌,
}
use model_courier.Contracts.{TaskEnvelope, ProviderResult}
use model_courier.Worker.ProcessRunner.{ProviderError}
use model_courier.Server.Storage.{Bytes}
use model_courier.Agent.Json.{Value, object, Fields, end, field, get, split_dots}

pub record HttpAdapterConfig : Type 0 where
  pub base_url : String
  pub path : String
  pub method : String
  pub input_field : String
  pub model_field : Option String
  pub model_name : Option String
  pub response_path : String
  pub max_response_bytes : ℕ

pub record CheckResult : Type 0 where
  pub available : Bool
  pub status_code : Option ℕ
  pub error_code : Option String

abbrev pub adapter_error : String → String → Bool → ProviderError
adapter_error code message retryable = record {
  code = code;
  message = join (join code ": ") message;
  retryable = retryable;
}

-- What the stream of a response brings: a chunk, a TimeoutException, or another HTTPError.
pub data Part : Type 0 where
  bytes : Bytes → Part
  stalls drops : Part

pub data HttpAnswer : Type 0 where
  timed_out broken : HttpAnswer
  responded : (status_code : ℕ) → List Part → HttpAnswer

-- What `adapter.execute` sends: a form with one file.
pub record FormRequest : Type 0 where
  pub method : String
  pub url : String
  pub form : List (String × String)
  pub file_field : String
  pub file_name : String
  pub content : Bytes
  pub mime : String

pub data Outcome : Type 0 where
  result : ProviderResult → Outcome
  failure : ProviderError → Outcome

abbrev pub url_of : HttpAdapterConfig → String
url_of config = join config.base_url config.path

-- `check`
unfoldable pub check : HttpAnswer → CheckResult
check timed_out = record { available = false; status_code = none; error_code = some "timeout" }
check broken = record {
  available = false;
  status_code = none;
  error_code = some "connection_error";
}
check (responded status_code parts) =
    let reachable = ltb status_code 500 in
    record {
      available = reachable;
      status_code = some status_code;
      error_code = if reachable then none else some "http_error";
    }

-- A text that may be None counts when it is not empty.
abbrev pub truthy : Option String → Option String
truthy none = none
truthy (some s) = if s == "" then none else some s

abbrev pub model_form : Option String → Option String → List (String × String)
model_form (some key) (some name) = (key, name) ∷ []
model_form _ _ = []

-- `none` is the IndexError of an envelope without inputs.
unfoldable pub request_of : HttpAdapterConfig → TaskEnvelope → Bytes → Option FormRequest
request_of config task input_bytes = elim task.input_artifacts [
  | [] ↦ none
  | a ∷ rest ↦ some (record {
    method = config.method;
    url = url_of config;
    form = model_form (truthy config.model_field) (truthy config.model_name);
    file_field = config.input_field;
    file_name = a.name;
    content = input_bytes;
    mime = a.mime;
  })
]

abbrev pub timeout_error : ProviderError
timeout_error = adapter_error "timeout" "HTTP request timed out" true

abbrev pub connection_error : ProviderError
connection_error = adapter_error "connection_error" "HTTP request failed" true

pub data Content : Type 0 where
  whole : Bytes → Content
  fails : ProviderError → Content

-- `_read_response`, with the chunks so far and the exceptions of the stream as they are caught.
unfoldable pub read_response : ℕ → Bytes → List Part → Content
read_response max_bytes content [] = whole content
read_response max_bytes content (stalls ∷ parts) = fails timeout_error
read_response max_bytes content (drops ∷ parts) = fails connection_error
read_response max_bytes content (bytes chunk ∷ parts) =
    let rest = read_response max_bytes (content ++ chunk) parts in
    if ltb max_bytes (length (content ++ chunk))
    then fails (adapter_error "response_too_large" "HTTP response exceeded the size limit" false)
    else rest

-- `_extract` along the parts of the path; `none` is `_MISSING`.
unfoldable pub extract : Value → List String → Option Value
extract value [] = some value
extract (object fields) (part ∷ parts) = elim (get part fields) [
  | none ↦ none
  | some value ↦ extract value parts
]
extract _ (part ∷ parts) = none

-- `path.rsplit(".", 1)[-1]`
unfoldable pub last_part : String → List String → String
last_part last [] = last
last_part last (part ∷ parts) = last_part part parts

abbrev pub payload_of : String → Value → Fields
payload_of path (object fields) = fields
payload_of path value = field (last_part "" (split_dots "" path)) value end

module _ (loads : Bytes → Option Value) (dumps digest : Fields → String) (show : ℕ → String) where
  abbrev pub result_of : String → Fields → ProviderResult
  result_of task_type payload = record {
    schema_version = task_type;
    payload = dumps payload;
    artifacts = [];
    result_digest = digest payload;
  }

  abbrev pub read_value : HttpAdapterConfig → String → Option Value → Outcome
  read_value config task_type none =
      failure
        (adapter_error "response_field_missing" "configured response field was not found" false)
  read_value config task_type (some value) =
      result (result_of task_type (payload_of config.response_path value))

  abbrev pub read_document : HttpAdapterConfig → String → Option Value → Outcome
  read_document config task_type none =
      failure (adapter_error "invalid_json" "HTTP service returned invalid JSON" false)
  read_document config task_type (some document) =
      read_value config task_type (extract document (split_dots "" config.response_path))

  abbrev pub read_content : HttpAdapterConfig → String → Content → Outcome
  read_content config task_type (fails e) = failure e
  read_content config task_type (whole content) = read_document config task_type (loads content)

  -- `is_success` holds of 200 to 299.
  unfoldable pub execute : HttpAdapterConfig → String → HttpAnswer → Outcome
  execute config task_type timed_out = failure timeout_error
  execute config task_type broken = failure connection_error
  execute config task_type (responded status_code parts) =
      if not (leb 200 status_code && ltb status_code 300)
      then failure (
          adapter_error "http_error" (join "HTTP service returned status " (show status_code))
            (leb 500 status_code))
      else read_content config task_type (read_response config.max_response_bytes [] parts)
