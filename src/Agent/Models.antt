-- ===== src/Agent/Models.antt =====
-- agent/models.py: the profiles and bindings that the agent stores. The bounds of their texts are
-- pydantic's to check, and not modelled.
use model_courier.Prelude.{String, Bool, Option, none, some}
use model_courier.Agent.Json.{Value, null, boolean, string, object, Fields, end, field}

pub data Kind : Type 0 where
  python http managed_http : Kind

pub record ExecutionProfile : Type 0 where
  pub profile_id : String
  pub kind : Kind
  pub environment_id : Option String
  pub adapter_id : String
  pub config : Fields

pub record ModelBinding : Type 0 where
  pub binding_id : String
  pub display_name : String
  pub service_id : String
  pub execution : ExecutionProfile
  pub model_name : String
  pub task_type : String
  pub enabled : Bool

abbrev pub text_of_kind : Kind → String
text_of_kind python = "python"
text_of_kind http = "http"
text_of_kind managed_http = "managed_http"

abbrev pub value_of : Option String → Value
value_of none = null
value_of (some s) = string s

-- `model_dump(mode="json")`, in the order of the fields.
abbrev pub dump_execution : ExecutionProfile → Value
dump_execution e = object (
    field "profile_id" (string e.profile_id) (
      field "kind" (string (text_of_kind e.kind)) (
        field "environment_id" (value_of e.environment_id)
          (field "adapter_id" (string e.adapter_id) (field "config" (object e.config) end)))))

abbrev pub dump : ModelBinding → Value
dump b = object (
    field "binding_id" (string b.binding_id) (
      field "display_name" (string b.display_name) (
        field "service_id" (string b.service_id) (
          field "execution" (dump_execution b.execution) (
            field "model_name" (string b.model_name) (
              field "task_type" (string b.task_type) (field "enabled" (boolean b.enabled) end)))))))
