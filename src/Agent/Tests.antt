-- ===== src/Agent/Tests.antt =====
-- The theorems on the agent, applied to two bindings whose JSON text is their id.
use model_courier.Prelude.{
  ℕ, ◌≡◌, ◌≢◌, ◌↔◌, ◌<◌, refl, ap, arith, String, true, false, Option, none, some, List, [], ◌∷◌,
  ◌==◌, length, is_empty, ◌⊎◌, if◌then◌else◌, Bool-cases, inl, inr,
}
use model_courier.Prelude.Int.{ℤ, pos}
use model_courier.Prelude.Tables.{find, modify}
use model_courier.Contracts.{ProviderResult}
use model_courier.Worker.Factory.{ProviderFactory, create}
use model_courier.Server.Storage.{Bytes}
use model_courier.Agent.Json.{
  Value, null, string, array, object, nil, cons, Fields, end, field, get,
}
use model_courier.Agent.Models.{python, ModelBinding}
use model_courier.Agent.Secrets.{
  has_infix, is_secret, reject_secrets, IsOpen, reject_secrets-IsOpen,
}
use model_courier.Agent.Store.{
  AgentStore, BindingRow, OldRow, saved, row_of, save_binding, upsert_binding, migrate,
  mark_verified, mark_written, mark_unverified, is_verified, get_binding, binding_digest,
  find_binding,
}
use model_courier.Agent.Store.Trust.{saves, marks, run, IsTrusted, run-migrate-IsTrusted}
use model_courier.Agent.Bridge.{
  Process, Tick, answered, capture_stream, start_capture, split_lines, first_line, finish, text_of,
  watch, is_blank,
}
use model_courier.Agent.Bridge
use model_courier.Agent.Environments.{parse_version, split_commas, int_of, digits}
use model_courier.Prelude.Texts
use model_courier.Prelude.Texts.{strip, strip_left, strip_right}
use model_courier.Agent.Bridge.Capture.{capture_of, whole_stream, capture_stream-capture_of}
use model_courier.Agent.Bridge.Answers.{Answers, run-Answers}
use model_courier.Agent.Bindings.{registration_of, build_binding_factory}
use model_courier.Agent.Bindings.Loop
use model_courier.Agent.Bindings.Factory.{create-build_binding_factory}
use model_courier.Agent.Controller.{
  Controller, new_controller, start_called, stop_called, joined, thread_moved,
}
use model_courier.Agent.Controller
use model_courier.Agent.Controller.Threads.{IsSound, run-IsSound}
use model_courier.Agent.Api.{
  AgentState, runs, produced, inference_succeeded, begin_verification, finish_verification,
}
use model_courier.Agent.Api.Verifying.{finish_verification-is_verified}

abbrev detector : ModelBinding
detector = record {
  binding_id = "detector";
  display_name = "Detector";
  service_id = "vision";
  execution = record {
    profile_id = "p";
    kind = python;
    environment_id = none;
    adapter_id = "yolo";
    config = field "executable" (string "/usr/bin/python3") end;
  };
  model_name = "yolo11n";
  task_type = "vision.detect.v1";
  enabled = true;
}

abbrev whisper : ModelBinding
whisper = record detector {
  binding_id = "whisper";
  model_name = "small";
  task_type = "audio.transcribe.v1";
}

abbrev encode : ModelBinding → String
encode b = b.binding_id

abbrev decode : String → ModelBinding
decode text = if text == "whisper" then whisper else detector

abbrev lower : String → String
lower s = s

abbrev show : ℕ → String
show n = "0"

abbrev digest : ModelBinding → String
digest b = if b.model_name == "small" then "sha256:small" else "sha256:yolo11n"

digest-nonempty : (b : ModelBinding) → digest b ≢ ""
digest-nonempty b e = elim (Bool-cases (b.model_name == "small")) [
  | inl t ↦
      let h : "sha256:small" ≡ "" = rw t at e in
      let none_of : false ≡ true = ap (λ s. s == "") h in absurd (ground arith)
  | inr t ↦
      let h : "sha256:yolo11n" ≡ "" = rw t at e in
      let none_of : false ≡ true = ap (λ s. s == "") h in absurd (ground arith)
]

abbrev detector_row : BindingRow
detector_row = record (row_of encode lower show detector) {
  verified = true;
  verified_digest = some "sha256:yolo11n";
}

abbrev whisper_row : BindingRow
whisper_row = row_of encode lower show whisper

abbrev store : AgentStore
store = record { bindings = whisper_row ∷ detector_row ∷ []; accepting = true }

reject_secrets-IsOpen_example :
    (reject_secrets lower show (object (field "options" (array (cons (string "a") nil)) end)) ""
      ≡ none)
    ↔ IsOpen lower show (object (field "options" (array (cons (string "a") nil)) end))
reject_secrets-IsOpen_example =
    reject_secrets-IsOpen lower show (object (field "options" (array (cons (string "a") nil)) end))
      ""

names_a_secret :
    reject_secrets lower show
      (object (field "auth" (array (cons (object (field "api_token" null end)) nil)) end))
      ""
    ≡ some "auth.0.api_token"
unfolding reject_secrets is_secret has_infix
names_a_secret = refl

abbrev old_rows : List OldRow
old_rows = record { binding_id = "detector"; binding_json = "detector"; verified = true } ∷ []

run-migrate-IsTrusted_example : IsTrusted encode lower show decode digest (
    run encode lower show decode digest
      (saves whisper ∷ marks "whisper" none ∷ [])
      (migrate decode digest old_rows false))
unfolding find
run-migrate-IsTrusted_example =
    run-migrate-IsTrusted encode lower show decode digest old_rows false
      (saves whisper ∷ marks "whisper" none ∷ []) (refl, tt)

abbrev after_save : AgentStore
after_save = record {
  bindings = whisper_row ∷ row_of encode lower show detector ∷ [];
  accepting = true;
}

save : save_binding encode lower show detector store ≡ (saved, after_save)
unfolding save_binding reject_secrets is_secret has_infix upsert_binding find modify
save = refl

capture_stream-capture_of_example :
    capture_stream 4 ((1 ∷ 2 ∷ 3 ∷ []) ∷ (4 ∷ 5 ∷ []) ∷ []) start_capture
    ≡ capture_of 4 (1 ∷ 2 ∷ 3 ∷ 4 ∷ 5 ∷ [])
unfolding whole_stream
capture_stream-capture_of_example =
    capture_stream-capture_of 4 ((1 ∷ 2 ∷ 3 ∷ []) ∷ (4 ∷ 5 ∷ []) ∷ [])

abbrev reply : Fields
reply = field "request_id" (string "r") end

abbrev encode_line : Fields → Bytes
encode_line fields = 123 ∷ 125 ∷ 10 ∷ []

abbrev loads : Bytes → Option Value
loads line = if is_empty line then none else some (object reply)

abbrev detail_of : Bytes → String
detail_of errors = ""

abbrev show_code : ℤ → String
show_code code = "1"

abbrev process : Process
process = record {
  ticks = record { alive = false; exceeded = false; late = false } ∷ [];
  stdout = (10 ∷ 123 ∷ []) ∷ (125 ∷ 10 ∷ []) ∷ [];
  stderr = [];
  returncode = pos 0;
}

bridge_replies :
    Bridge.run encode_line loads detail_of show_code 64 reply (some process) ≡ answered reply
unfolding Bridge.run finish capture_stream watch split_lines first_line is_blank get
bridge_replies = refl

run-Answers_example :
    (id : String) × (text_of (get "request_id" reply) ≡ some id)
    × (length (encode_line reply) < 64)
    × (p : Process) × (some process ≡ some p)
    × Answers encode_line loads detail_of show_code 64 id p reply
run-Answers_example =
    run-Answers encode_line loads detail_of show_code 64 reply reply (some process) bridge_replies

create-build_binding_factory_example :
    ((f : ProviderFactory ModelBinding String) × (build_binding_factory String
          (strip Texts.is_blank)
          decode
          digest
          store
        ≡ some f)
      × (create ModelBinding String "detector" "config" f ≡ some detector))
    ⊎ ((build_binding_factory String (strip Texts.is_blank) decode digest store ≡ none)
        × (r : BindingRow) × (find_binding r.binding_id store ≡ some r)
        × Loop.Stops String (strip Texts.is_blank) decode digest store r)
unfolding find is_verified strip_left strip_right
create-build_binding_factory_example =
    create-build_binding_factory String (strip Texts.is_blank) decode digest store "detector"
      "config" (refl, (refl, tt)) ((refl, refl), ((refl, refl), tt))

run-IsSound_example : IsSound (
    Controller.run
      (start_called ∷ thread_moved false 0 ∷ stop_called ∷ thread_moved false 0 ∷ joined 0 ∷ [])
      (new_controller true))
run-IsSound_example =
    run-IsSound
      (start_called ∷ thread_moved false 0 ∷ stop_called ∷ thread_moved false 0 ∷ joined 0 ∷ [])
      true

-- What an old thread's `join` does to the state of a newer one.
abbrev restart : List Controller.Event
restart =
    start_called
    ∷ stop_called
    ∷ thread_moved false 0
    ∷ thread_moved false 0
    ∷ thread_moved false 0
    ∷ thread_moved false 0
    ∷ start_called
    ∷ thread_moved false 0
    ∷ joined 1
    ∷ []

stopped_while_running : (Controller.run restart (new_controller true)).state ≡ Controller.stopped
unfolding Controller.run Controller.step Controller.start Controller.stop_request Controller.alter
    Controller.thread_at Controller.stop_finish Controller.run_thread new_controller
stopped_while_running = refl

parsed_version : parse_version "(3, 11, 2)" ≡ some (pos 3, pos 11, pos 2)
unfolding parse_version strip_left strip_right split_commas int_of digits
parsed_version = refl

no_version : parse_version "3.11" ≡ none
unfolding parse_version strip_left strip_right split_commas int_of digits
no_version = refl

abbrev produced_result : ProviderResult
produced_result = record {
  schema_version = "vision.detect.v1";
  payload = "{}";
  artifacts = [];
  result_digest = "sha256:0";
}

abbrev begun : AgentStore
begun = after_save

abbrev later : AgentStore
later = record begun { accepting = false }

begins :
    begin_verification decode digest "detector" (1 ∷ []) store store store
    ≡ (some (runs detector "sha256:yolo11n"), begun)
unfolding begin_verification get_binding binding_digest mark_unverified find modify
begins = refl

finishes :
    finish_verification decode digest "detector" "sha256:yolo11n" (produced produced_result) later
    ≡ (inference_succeeded produced_result, record store { accepting = false })
unfolding finish_verification mark_verified mark_written find modify
finishes = refl

finish_verification-is_verified_example :
    (get_binding decode digest "detector" store ≡ some detector)
    × (produced produced_result ≡ produced produced_result)
    × (is_verified decode digest "detector" (record store { accepting = false }) ≡ true)
    × (c : ModelBinding) × (get_binding decode digest "detector" store ≡ some c)
    × (binding_digest decode digest "detector" (record store { accepting = false })
        ≡ some (digest c))
finish_verification-is_verified_example =
    finish_verification-is_verified decode digest "detector" (1 ∷ []) detector "sha256:yolo11n"
      (produced produced_result) produced_result store store store begun later
      (record store { accepting = false }) digest-nonempty begins finishes

abbrev agent : AgentState
agent = record { store = store; runtime = Controller.run (start_called ∷ []) (new_controller true) }

abbrev after_agent : AgentState
after_agent = record {
  store = record after_save { accepting = false };
  runtime = Controller.run (start_called ∷ stop_called ∷ []) (new_controller true);
}

abbrev factory_before : ProviderFactory ModelBinding String
factory_before = record {
  allowlist = none;
  registrations =
      (
        "detector",
        registration_of String (strip Texts.is_blank) detector (record {
          capability_id = "detector";
          task_type = "vision.detect.v1";
          provider = detector.execution.adapter_id;
          service_id = some detector.service_id;
          models = "yolo11n" ∷ [];
          formats = "image/jpeg" ∷ "image/png" ∷ [];
          max_concurrency = 1;
        }),
      )
      ∷ [];
}
