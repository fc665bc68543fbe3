-- ===== src/Agent/Bridge/Answers.antt =====
-- About `PythonBridge.run` of agent/python_bridge.py: what stands behind a response that it returns.
use model_courier.Prelude.{
  ℕ, zero, suc, ◌+◌, ◌≤◌, ◌<◌, ◌≡◌, refl, ap, subst, ◌∙◌, String, Bool, false, Option, none, some,
  [], ◌∷◌, take, length, ltb, arith, eq_iff, ◌==◌, ◌||◌, Option-cases, inl, inr, if◌then◌else◌,
}
use model_courier.Prelude.Int.{ℤ, pos, negsuc}
use model_courier.Server.Storage.{Bytes}
use model_courier.Agent.Json.{Value, null, boolean, number, string, array, object, Fields, get}
use model_courier.Agent.Bridge.{
  BridgeError, bridge_error, BridgeResult, Captured, check_id, answered, refused, Process, text_of,
  check_response, read_response, exited, finish, started, run, watch, first_line, split_lines,
}
use model_courier.Agent.Bridge.Capture.{whole_stream, capture_stream-capture_of}

take_whole : (n : ℕ) (xs : Bytes) → length xs ≤ n → take n xs ≡ xs
take_whole zero [] h = refl
take_whole zero (x ∷ xs) h = absurd (omega arith)
take_whole (suc n) [] h = refl
take_whole (suc n) (x ∷ xs) h = ap (λ l. x ∷ l) (take_whole n xs (omega arith))

module _ (encode : Fields → Bytes) (loads : Bytes → Option Value) (detail_of : Bytes → String)
    (show : ℤ → String) (max_bytes : ℕ) where
  -- The process ended by itself with exit code 0, within the limits, and the first line of its
  -- output that is not blank is the response, which repeats the request's id.
  pub record Answers (request_id : String) (p : Process) (response : Fields) : Type 0 where
    pub in_time : watch p.ticks ≡ false
    pub small_output : length (whole_stream p.stdout) ≤ max_bytes
    pub small_errors : length (whole_stream p.stderr) ≤ max_bytes
    pub code : p.returncode ≡ pos zero
    pub line : Bytes
    pub first : first_line (split_lines [] false (whole_stream p.stdout)) ≡ some line
    pub parsed : loads line ≡ some (object response)
    pub echoed : text_of (get "request_id" response) ≡ some request_id

  check_id-answered :
      (id : String) (g : Fields) (o : Option String) (f : Fields)
      → check_id id g o ≡ answered f
      → (g ≡ f) × (o ≡ some id)
  check_id-answered id g none f e = absurd (ground arith)
  check_id-answered id g (some j) f e = ground (arith, eq_iff j id)

  check-answered :
      (id : String) (o : Option Value) (f : Fields)
      → check_response id o ≡ answered f
      → (o ≡ some (object f)) × (text_of (get "request_id" f) ≡ some id)
  check-answered id none f e = absurd (ground arith)
  check-answered id (some null) f e = absurd (ground arith)
  check-answered id (some (boolean b)) f e = absurd (ground arith)
  check-answered id (some (number n)) f e = absurd (ground arith)
  check-answered id (some (string s)) f e = absurd (ground arith)
  check-answered id (some (array a)) f e = absurd (ground arith)
  check-answered id (some (object g)) f e =
      let (same, echoed) = check_id-answered id g (text_of (get "request_id" g)) f e in
      (
        ap (λ x. some (object x)) same,
        subst (λ x. text_of (get "request_id" x) ≡ some id) same echoed,
      )

  read-answered :
      (id : String) (o : Option Bytes) (f : Fields)
      → read_response encode loads detail_of show max_bytes id o ≡ answered f
      → (line : Bytes) × (o ≡ some line)
        × (loads line ≡ some (object f))
        × (text_of (get "request_id" f) ≡ some id)
  read-answered id none f e = absurd (ground arith)
  read-answered id (some line) f e =
      let (parsed, echoed) = check-answered id (loads line) f e in (line, refl, parsed, echoed)

  exited-answered :
      (c : ℤ) (err : Bytes) (r : BridgeResult) (f : Fields)
      → exited encode loads detail_of show max_bytes c err r ≡ answered f
      → (c ≡ pos zero) × (r ≡ answered f)
  exited-answered (pos zero) err r f e = (refl, e)
  exited-answered (pos (suc n)) err r f e = absurd (ground arith)
  exited-answered (negsuc n) err r f e = absurd (ground arith)

  tests-answered :
      (late over : Bool) (x y : BridgeError) (r : BridgeResult) (f : Fields)
      → (if late then refused x else if over then refused y else r) ≡ answered f
      → (late ≡ false) × (over ≡ false) × (r ≡ answered f)
  tests-answered late over x y r f e = ground arith

  within : (n : ℕ) (b : Bool) (m : ℕ) → (ltb n m || b) ≡ false → (m ≤ n) × (b ≡ false)
  within n b m e = ground arith

  finish-answered :
      (id : String) (p : Process) (f : Fields)
      → finish encode loads detail_of show max_bytes id p ≡ answered f
      → Answers id p f
  unfolding finish
  finish-answered id p f e =
      let out = capture_stream-capture_of max_bytes p.stdout in
      let err = capture_stream-capture_of max_bytes p.stderr in
      let (in_time, over, rest) = tests-answered _ _ _ _ _ f e in
      let (code, read) = exited-answered _ _ _ f rest in
      let (line, first, parsed, echoed) = read-answered id _ f read in
      let (small, errors) = within max_bytes _ _ (rw (out, err) at over) in
      let small_errors : length (whole_stream p.stderr) ≤ max_bytes = ground arith in
      record {
        in_time = in_time;
        small_output = small;
        small_errors = small_errors;
        code = code;
        line = line;
        first =
            subst (λ b. first_line (split_lines [] false b) ≡ some line)
              (ap (λ (c : Captured). c.kept) out ∙ take_whole max_bytes _ small) first;
        parsed = parsed;
        echoed = echoed;
      }

  started-answered :
      (id : String) (o : Option Process) (f : Fields)
      → started encode loads detail_of show max_bytes id o ≡ answered f
      → (p : Process) × (o ≡ some p) × Answers id p f
  started-answered id none f e = absurd (ground arith)
  started-answered id (some p) f e = (p, refl, finish-answered id p f e)

  -- When the bridge returns a response, the request named an id and with its newline was within the
  -- limit, and the process was started, ended in time with exit code 0 and with both streams within
  -- the limit; the first line of the whole output that is not blank parses to that response, and
  -- the response repeats the id of the request.
  pub run-Answers :
      (request response : Fields) (o : Option Process)
      → run encode loads detail_of show max_bytes request o ≡ answered response
      → (id : String) × (text_of (get "request_id" request) ≡ some id)
        × (length (encode request) < max_bytes)
        × (p : Process) × (o ≡ some p)
        × Answers id p response
  unfolding run
  run-Answers request response o e = elim (Option-cases (text_of (get "request_id" request))) [
    | inl n ↦ absurd (let h = rw (n, run) at e in ground arith)
    | inr (id, n) ↦
        let h = rw (n, run) at e in
        let (named, over, rest) =
          tests-answered (id == "") (ltb max_bytes (length (encode request) + 1))
            (bridge_error "invalid_request" "request_id is required")
            (bridge_error "message_too_large" "adapter request exceeded the size limit")
            (started encode loads detail_of show max_bytes id o) response h in
        let (p, ran, answers) = started-answered id o response rest in
        (id, n, ground arith, p, ran, answers)
  ]
