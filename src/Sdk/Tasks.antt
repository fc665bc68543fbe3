-- ===== src/Sdk/Tasks.antt =====
-- The calls of the SDK's client on tasks, over what `_request` returns. `view_of` is the validation of
-- a response as a TaskView.
use Prim.Native.String.{◌++◌ as join}
use model_courier.Prelude.{
  ℕ, zero, suc, ◌-◌, min, String, Bool, true, false, Option, none, some, List, [], ◌∷◌, length, leb,
  ◌==◌, ◌||◌, ◌&&◌, if◌then◌else◌,
}
use model_courier.Prelude.Int.{ℤ, pos, negsuc}
use model_courier.Contracts.{ArtifactRef, TaskEnvelope, ErrorEnvelope}
use model_courier.Server.Storage.{Bytes}
use model_courier.Sdk.{Reply, Outcome, returns}

pub record TaskView : Type 0 where
  pub task_id : String
  pub status : String
  pub task_type : String
  pub expires_at : ℕ
  pub attempt : ℕ
  pub result_available : Bool
  pub result_expires_at : Option ℕ
  pub upload_url : Option String
  pub error : Option ErrorEnvelope

-- A stream has its whole content and its position.
pub data Payload : Type 0 where
  content : Bytes → Payload
  file : Bytes → Payload
  stream : Bytes → (position : ℕ) → Payload
  unsupported : Payload

unfoldable pub rest_from : ℕ → Bytes → Bytes
rest_from zero bytes = bytes
rest_from (suc n) [] = []
rest_from (suc n) (b ∷ bytes) = rest_from n bytes

-- `size - position`
abbrev pub difference : ℕ → ℕ → ℤ
difference size position =
    if leb position size then pos (size - position) else negsuc (position - size - 1)

-- What an upload of the payload sends, and its size; `none` is the TypeError.
abbrev pub payload_and_size : Payload → Option (Bytes × ℤ)
payload_and_size (content bytes) = some (bytes, pos (length bytes))
payload_and_size (file bytes) = some (bytes, pos (length bytes))
payload_and_size (stream bytes position) =
    some (rest_from position bytes, difference (length bytes) position)
payload_and_size unsupported = none

-- How a call ends: a value, an exception of `_request`, a response that is no TaskView, or an argument
-- that the client refuses before it asks the server.
pub data Called : Type 0 where
  gives : TaskView → Called
  raises : Outcome → Called
  invalid_view : Called
  refuses : Called

abbrev pub is_size : Option ℕ → ℤ → Bool
is_size none size = true
is_size (some declared) (pos size) = leb declared size && leb size declared
is_size (some declared) (negsuc n) = false

abbrev pub input_url : TaskView → String
input_url created = upload_or created.task_id created.upload_url
  where
    upload_or : String → Option String → String
    upload_or task_id none = join (join "/v1/tasks/" task_id) "/input"
    upload_or task_id (some url) =
        if url == "" then join (join "/v1/tasks/" task_id) "/input" else url

module _ (view_of : Reply → Option TaskView) where
  abbrev pub viewed : Option TaskView → Called
  viewed none = invalid_view
  viewed (some view) = gives view

  abbrev pub called : Outcome → Called
  called (returns r) = viewed (view_of r)
  called outcome = raises outcome

  -- The upload, for what `_request` answers to the PUT at a URL with its query and content.
  abbrev pub upload :
      ArtifactRef → Bytes → ℤ → (String → String → String → ℤ → Bytes → Outcome) → Called → Called
  upload artifact bytes size put (gives created) =
      called (put (input_url created) artifact.name artifact.mime size bytes)
  upload artifact bytes size put other = other

  abbrev pub create_for :
      ArtifactRef
      → Outcome
      → (String → String → String → ℤ → Bytes → Outcome)
      → Option (Bytes × ℤ)
      → Called
  create_for artifact post put none = refuses
  create_for artifact post put (some (bytes, size)) =
      if is_size artifact.size_bytes size
      then upload artifact bytes size put (called post)
      else refuses

  unfoldable pub create_task :
      TaskEnvelope → Payload → Outcome → (String → String → String → ℤ → Bytes → Outcome) → Called
  create_task envelope payload post put = elim envelope.input_artifacts [
    | [] ↦ refuses
    | artifact ∷ rest ↦ elim rest [
      | [] ↦ create_for artifact post put (payload_and_size payload)
      | _ ∷ _ ↦ refuses
    ]
  ]

-- A round of `wait_for_result`: what `get_task` comes to, and the time that is then left.
pub data Polled : Type 0 where
  sees : TaskView → Polled
  fails : Outcome → Polled

pub record Round : Type 0 where
  pub polled : Polled
  pub remaining : ℤ

-- `fetches` returns what `get_result` does; `waiting` is a wait whose rounds have run out.
pub data Waited : Type 0 where
  fetches : (task_id : String) → Waited
  task_failed : TaskView → Waited
  timed_out : Waited
  poll_raised : Outcome → Waited
  waiting : Waited

-- The sleeps and the end of `wait_for_result`, for a poll interval that is not negative.
abbrev pub wait_more : ℕ → ℤ → List ℕ × Waited → List ℕ × Waited
wait_more poll_interval (pos (suc n)) (sleeps, outcome) =
    (min poll_interval (suc n) ∷ sleeps, outcome)
wait_more poll_interval _ rest = ([], timed_out)

abbrev pub wait_round : String → ℕ → Round → List ℕ × Waited → List ℕ × Waited
wait_round task_id poll_interval round rest = elim round.polled [
  | fails outcome ↦ ([], poll_raised outcome)
  | sees task ↦
      if task.status == "succeeded"
      then ([], fetches task_id)
      else if task.status == "failed" || task.status == "cancelled"
      then ([], task_failed task)
      else wait_more poll_interval round.remaining rest
]

unfoldable pub wait_for_result : String → ℕ → List Round → List ℕ × Waited
wait_for_result task_id poll_interval [] = ([], waiting)
wait_for_result task_id poll_interval (round ∷ rounds) =
    wait_round task_id poll_interval round (wait_for_result task_id poll_interval rounds)
