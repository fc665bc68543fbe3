-- ===== src/Agent/Api.antt =====
-- agent/api.py: the endpoints, after `authorize`. The sub-calls of an endpoint that other calls may
-- come between, before and after the model's run in `verify_model`, are functions of their own.
pub mod Running
pub mod Saving
pub mod Verifying
use model_courier.Prelude.{
  ℕ, ◌*◌, ◌^◌, String, Bool, true, false, Option, none, some, List, [], ◌∷◌, map, is_empty, length,
  ltb, ◌==◌, ◌&&◌, if◌then◌else◌,
}
use model_courier.Prelude.Int.{ℤ}
use model_courier.Contracts.{ProviderResult}
use model_courier.Prelude.Texts.{first_chars}
use model_courier.Worker.ProcessRunner.{ProviderError}
use model_courier.Server.Storage.{Bytes}
use model_courier.Agent.Json.{Fields, get}
use model_courier.Agent.Models.{Kind, python, http, managed_http, ModelBinding}
use model_courier.Agent.Store.{
  AgentStore, Saved, saved, secret_value, set_accepting, save_binding, list_bindings, get_binding,
  mark_unverified, mark_verified, is_verified, has_verified_enabled_binding, binding_digest,
}
use model_courier.Agent.Http.{HttpAdapterConfig, HttpAnswer, CheckResult, Outcome, result, failure}
use model_courier.Agent.Http
use model_courier.Agent.Bridge.{text_of}
use model_courier.Agent.Environments.{EnvironmentCheck, Probe, inspect}
use model_courier.Agent.Controller.{
  Controller, RuntimeState, unconfigured, stopped, starting, running, error, StartResult,
  not_configured, still_stopping, already_started, started, start, stop_request,
}

pub record AgentState : Type 0 where
  pub store : AgentStore
  pub runtime : Controller

-- The bodies of the responses; `http_exception` is a status of 400 and above.
pub data Response : Type 0 where
  http_exception : (status_code : ℕ) → (detail : String) → Response
  failed_test : (stage : String) → (code : String) → (message : String) → Response
  environment_succeeded : Option (ℤ × ℤ × ℤ) → Response
  connection_succeeded : Option ℕ → Response
  inference_succeeded : ProviderResult → Response
  binding_saved : ModelBinding → Response
  accepts : Bool → Response
  status_is : Bool → RuntimeState → Response

abbrev pub authorize : Option String → String → Bool
authorize none expected = false
authorize (some authorization) expected = authorization == expected

abbrev pub has_ended : RuntimeState → Bool
has_ended error = true
has_ended stopped = true
has_ended unconfigured = false
has_ended starting = false
has_ended running = false

unfoldable pub status : AgentState → Response × AgentState
status agent =
    if agent.store.accepting && has_ended agent.runtime.state
    then (
      status_is false agent.runtime.state,
      record agent { store = set_accepting false agent.store },
    )
    else (status_is agent.store.accepting agent.runtime.state, agent)

-- The first part of `save_model`: nothing is accepted while a binding changes. The `stop` is its
-- part before the `join`.
unfoldable pub stop_accepting : AgentState → AgentState
stop_accepting agent =
    if agent.store.accepting
    then record { store = set_accepting false agent.store; runtime = stop_request agent.runtime }
    else agent

abbrev pub or_text : Option String → String → String
or_text none other = other
or_text (some text) other = if text == "" then other else text

abbrev pub environment_answer : EnvironmentCheck → Response
environment_answer check =
    if check.available
    then environment_succeeded check.python_version
    else failed_test "environment" (or_text check.error_code "probe_failed")
        (or_text check.message "environment unavailable")

abbrev pub connection_answer : CheckResult → Response
connection_answer check =
    if check.available
    then connection_succeeded check.status_code
    else failed_test "connection" (or_text check.error_code "connection_error")
        "HTTP service is unavailable"

abbrev pub test_environment : (String → EnvironmentCheck) → Option String → Response
test_environment inspects none =
    failed_test "environment" "executable_missing" "Python executable is not configured"
test_environment inspects (some executable) = environment_answer (inspects executable)

abbrev pub test_connection : HttpAnswer → Option HttpAdapterConfig → Response
test_connection answer none =
    failed_test "configuration" "invalid_http_config" "HTTP configuration is invalid"
test_connection answer (some config) = connection_answer (Http.check answer)

abbrev pub test_binding :
    (Fields → Option HttpAdapterConfig)
    → (String → EnvironmentCheck)
    → HttpAnswer
    → Kind
    → Fields
    → Response
test_binding http_config inspects answer python config =
    test_environment inspects (text_of (get "executable" config))
test_binding http_config inspects answer http config = test_connection answer (http_config config)
test_binding http_config inspects answer managed_http config =
    failed_test "startup" "managed_http_pending" "managed HTTP startup is not available yet"

abbrev pub max_sample_bytes : ℕ
max_sample_bytes = 32 * 1024 * 1024

-- How a verification begins: an answer at once, or a run of the binding with the digest to expect.
pub data Begun : Type 0 where
  answers : Response → Begun
  runs : ModelBinding → (verification_digest : String) → Begun

abbrev pub check_sample : ModelBinding → String → Bytes → Begun
check_sample b verification_digest content =
    if is_empty content
    then answers (failed_test "inference" "sample_missing" "verification sample is empty")
    else if ltb max_sample_bytes (length content)
    then answers
        (failed_test "inference" "sample_too_large" "verification sample exceeded the size limit")
    else runs b verification_digest

-- What the run of a binding comes to, before the binding is marked.
pub data Ran : Type 0 where
  produced : ProviderResult → Ran
  ran_into : (stage code message : String) → Ran

abbrev pub failed_inference : ProviderError → Ran
failed_inference e = ran_into "inference" e.code (first_chars 512 e.message)

abbrev pub ran_of : Option Outcome → Ran
ran_of none = ran_into "configuration" "invalid_http_config" "HTTP configuration is invalid"
ran_of (some (failure e)) = failed_inference e
ran_of (some (result r)) = produced r

module _ (encode : ModelBinding → String) (lower : String → String) (show : ℕ → String) where
  abbrev pub saving_answer : ModelBinding → Saved → Response
  saving_answer b saved = binding_saved b
  saving_answer b (secret_value path) = http_exception 422 path

  unfoldable pub save_model : ModelBinding → AgentState → Response × AgentState
  save_model b agent =
      let stopping = stop_accepting agent in
      let (outcome, store) = save_binding encode lower show b stopping.store in
      (saving_answer b outcome, record stopping { store = store })

module _ (decode : String → ModelBinding) (digest : ModelBinding → String) where
  unfoldable pub models : AgentStore → List (ModelBinding × Bool)
  models s =
      map (λ (b : ModelBinding). (b, is_verified decode digest b.binding_id s))
        (list_bindings decode digest s)

  unfoldable pub test_model :
      (Fields → Option HttpAdapterConfig)
      → (String → Bool)
      → (String → Probe)
      → HttpAnswer
      → String
      → AgentStore
      → Response
  test_model http_config is_file probe answer binding_id s =
      elim (get_binding decode digest binding_id s) [
        | none ↦ http_exception 404 "model binding not found"
        | some b ↦
            test_binding http_config (λ executable. inspect is_file executable probe) answer
              b.execution.kind b.execution.config
      ]

  -- `verify_model` up to the lock; `none` is the KeyError of `binding_digest`. Other requests can come
  -- between its three calls of the store: `found`, `digested` and `marked` are the stores that
  -- `get_binding`, `binding_digest` and `mark_verified` find.
  abbrev pub begin_read :
      String
      → Bytes
      → ModelBinding
      → Option String
      → (digested marked : AgentStore) → Option Begun × AgentStore
  begin_read binding_id content b none digested marked = (none, digested)
  begin_read binding_id content b (some verification_digest) digested marked =
      (some (check_sample b verification_digest content), (mark_unverified binding_id marked).1)

  unfoldable pub begin_verification :
      String → Bytes → (found digested marked : AgentStore) → Option Begun × AgentStore
  begin_verification binding_id content found digested marked =
      elim (get_binding decode digest binding_id found) [
        | none ↦ (some (answers (http_exception 404 "model binding not found")), found)
        | some b ↦
            begin_read binding_id content b (binding_digest decode digest binding_id digested)
              digested marked
      ]

  abbrev pub marked_answer : ProviderResult → Bool → Response
  marked_answer r false =
      failed_test "inference" "binding_changed" "model configuration changed during verification"
  marked_answer r true = inference_succeeded r

  -- `_run_verification` from its result on.
  unfoldable pub finish_verification : String → String → Ran → AgentStore → Response × AgentStore
  finish_verification binding_id verification_digest (ran_into stage code message) s =
      (failed_test stage code message, s)
  finish_verification binding_id verification_digest (produced r) s =
      let (marked, after) = mark_verified decode digest binding_id (some verification_digest) s in
      (marked_answer r marked, after)

  abbrev pub accepting_answer : AgentState → StartResult × Controller → Response × AgentState
  accepting_answer agent (not_configured, runtime) =
      (http_exception 503 "platform Worker is not configured", record agent { runtime = runtime })
  accepting_answer agent (still_stopping, runtime) =
      (http_exception 503 "worker is still stopping", record agent { runtime = runtime })
  accepting_answer agent (already_started, runtime) =
      (accepts true, record { store = set_accepting true agent.store; runtime = runtime })
  accepting_answer agent (started, runtime) =
      (accepts true, record { store = set_accepting true agent.store; runtime = runtime })

  unfoldable pub accepting : Bool → AgentState → Response × AgentState
  accepting enabled agent =
      if enabled
      then (if has_verified_enabled_binding decode digest agent.store
          then accepting_answer agent (start agent.runtime)
          else (http_exception 409 "no verified enabled model binding", agent))
      else (
        accepts false,
        record { store = set_accepting false agent.store; runtime = stop_request agent.runtime },
      )
