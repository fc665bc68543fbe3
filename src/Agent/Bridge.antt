-- ===== src/Agent/Bridge.antt =====
-- agent/python_bridge.py. What the adapter's process does is the argument `Process`: the states that
-- the loop finds, the chunks of its two streams, and its exit code. `encode` makes the request's line,
-- `loads` decodes and parses a line, and `detail_of` is the redacted start of the error stream.
pub mod Capture
pub mod Answers
use Prim.Native.String.{◌++◌ as join}
use model_courier.Prelude.{
  ℕ, zero, ◌+◌, ◌-◌, String, Bool, true, false, Option, none, some, List, [], ◌∷◌, ◌++◌, take,
  length, not, is_empty, ltb, leb, eqb, ◌==◌, ◌||◌, ◌&&◌, if◌then◌else◌,
}
use model_courier.Prelude.Int.{ℤ, pos, negsuc}
use model_courier.Server.Storage.{Bytes}
use model_courier.Agent.Json.{Value, string, object, Fields, get}

pub record BridgeError : Type 0 where
  pub code : String
  pub message : String

abbrev pub bridge_error : String → String → BridgeError
bridge_error code message = record { code = code; message = join (join code ": ") message }

-- What a thread has of its stream: the bytes it keeps, their whole number, and the event.
pub record Captured : Type 0 where
  pub kept : Bytes
  pub total : ℕ
  pub exceeded : Bool

abbrev pub start_capture : Captured
start_capture = record { kept = []; total = 0; exceeded = false }

-- One round of the loop, with a chunk that is not empty.
abbrev pub capture_chunk : ℕ → Bytes → Captured → Captured
capture_chunk max_bytes chunk c =
    let total = c.total + length chunk in
    record {
      kept = if ltb c.total max_bytes then c.kept ++ take (max_bytes - c.total) chunk else c.kept;
      total = total;
      exceeded = if ltb max_bytes total then true else c.exceeded;
    }

-- `_capture_stream` on the chunks that `read` returns.
unfoldable pub capture_stream : ℕ → List Bytes → Captured → Captured
capture_stream max_bytes [] c = c
capture_stream max_bytes (chunk ∷ chunks) c =
    let rest = capture_stream max_bytes chunks (capture_chunk max_bytes chunk c) in
    if is_empty chunk then c else rest

-- What the loop finds: `poll()` is None, the event is set, the deadline is over.
pub record Tick : Type 0 where
  pub alive : Bool
  pub exceeded : Bool
  pub late : Bool

-- The loop's `timed_out`.
unfoldable pub watch : List Tick → Bool
watch [] = false
watch (t ∷ ticks) =
    let rest = watch ticks in
    if not t.alive then false else if t.exceeded then false else if t.late then true else rest

-- `bytes.splitlines()`, with the line so far, and whether a carriage return came just before.
unfoldable pub split_lines : Bytes → Bool → Bytes → List Bytes
split_lines line returned [] = if is_empty line then [] else line ∷ []
split_lines line returned (b ∷ bytes) =
    let skipped = split_lines [] false bytes in
    let ended = split_lines [] true bytes in
    let longer = split_lines (line ++ b ∷ []) false bytes in
    if eqb b b'\n'
    then (if returned then skipped else line ∷ skipped)
    else if eqb b b'\r'
    then line ∷ ended
    else longer

-- The whitespace that `bytes.strip()` takes off.
abbrev pub is_space : ℕ → Bool
is_space b = eqb b b' ' || (leb 9 b && leb b 13)

unfoldable pub is_blank : Bytes → Bool
is_blank [] = true
is_blank (b ∷ bytes) = is_space b && is_blank bytes

-- `lines[0]` of the lines that are not blank
unfoldable pub first_line : List Bytes → Option Bytes
first_line [] = none
first_line (l ∷ lines) = let rest = first_line lines in if is_blank l then rest else some l

pub record Process : Type 0 where
  pub ticks : List Tick
  pub stdout : List Bytes
  pub stderr : List Bytes
  pub returncode : ℤ

pub data BridgeResult : Type 0 where
  answered : Fields → BridgeResult
  refused : BridgeError → BridgeResult

abbrev pub text_of : Option Value → Option String
text_of (some (string s)) = some s
text_of _ = none

-- The response's tests.
abbrev pub check_id : String → Fields → Option String → BridgeResult
check_id request_id fields none =
    refused (bridge_error "request_mismatch" "adapter response request_id did not match")
check_id request_id fields (some id) =
    if id == request_id
    then answered fields
    else refused (bridge_error "request_mismatch" "adapter response request_id did not match")

abbrev pub check_response : String → Option Value → BridgeResult
check_response request_id none =
    refused (bridge_error "invalid_response" "adapter returned invalid JSON")
check_response request_id (some (object fields)) =
    check_id request_id fields (text_of (get "request_id" fields))
check_response request_id (some _) =
    refused (bridge_error "invalid_response" "adapter response must be a JSON object")

module _ (encode : Fields → Bytes) (loads : Bytes → Option Value) (detail_of : Bytes → String)
    (show : ℤ → String) (max_bytes : ℕ) where
  abbrev pub read_response : String → Option Bytes → BridgeResult
  read_response request_id none =
      refused (bridge_error "bridge_no_response" "adapter returned no JSON response")
  read_response request_id (some line) = check_response request_id (loads line)

  abbrev pub suffix_of : String → String
  suffix_of detail = if detail == "" then "" else join ": " detail

  abbrev pub exited : ℤ → Bytes → BridgeResult → BridgeResult
  exited (pos zero) stderr response = response
  exited code stderr response = refused (
      bridge_error "bridge_exit"
        (join (join "adapter exited with code " (show code)) (suffix_of (detail_of stderr))))

  -- After the threads have been joined.
  unfoldable pub finish : String → Process → BridgeResult
  finish request_id p =
      let out = capture_stream max_bytes p.stdout start_capture in
      let err = capture_stream max_bytes p.stderr start_capture in
      if watch p.ticks
      then refused (bridge_error "bridge_timeout" "adapter exceeded its execution deadline")
      else if out.exceeded || err.exceeded
      then refused (bridge_error "message_too_large" "adapter response exceeded the size limit")
      else exited p.returncode err.kept
          (read_response request_id (first_line (split_lines [] false out.kept)))

  abbrev pub started : String → Option Process → BridgeResult
  started request_id none =
      refused (bridge_error "bridge_start_failed" "adapter process could not be started")
  started request_id (some p) = finish request_id p

  -- `none` is the OSError of `Popen`.
  unfoldable pub run : Fields → Option Process → BridgeResult
  run request process = elim (text_of (get "request_id" request)) [
    | none ↦ refused (bridge_error "invalid_request" "request_id is required")
    | some request_id ↦
        if request_id == ""
        then refused (bridge_error "invalid_request" "request_id is required")
        else if ltb max_bytes (length (encode request) + 1)
        then refused (bridge_error "message_too_large" "adapter request exceeded the size limit")
        else started request_id process
  ]
