-- ===== src/Agent/Bridge/Capture.antt =====
-- About `_capture_stream` of agent/python_bridge.py: against the whole stream.
use model_courier.Prelude.{
  ℕ, zero, suc, ◌+◌, ◌-◌, ◌≤◌, ◌≡◌, refl, sym, ap, ◌∙◌, true, List, [], ◌∷◌, ◌++◌, take, length,
  length-append, ltb, arith, Bool-cases, le→ltb_false, inl, inr, if◌then◌else◌,
}
use mathlib.Core.List.{append-nil, append_assoc}
use model_courier.Server.Storage.{Bytes}
use model_courier.Agent.Bridge.{Captured, start_capture, capture_chunk, capture_stream}

-- The stream up to its end, which is the first empty chunk.
unfoldable pub whole_stream : List Bytes → Bytes
whole_stream [] = []
whole_stream ([] ∷ chunks) = []
whole_stream ((b ∷ bytes) ∷ chunks) = (b ∷ bytes) ++ whole_stream chunks

-- What there is to have of a stream: as many bytes as are allowed, its size, and whether it is over.
abbrev pub capture_of : ℕ → Bytes → Captured
capture_of max_bytes bytes = record {
  kept = take max_bytes bytes;
  total = length bytes;
  exceeded = ltb max_bytes (length bytes);
}

take_all : (n : ℕ) (xs ys : Bytes) → n ≤ length xs → take n (xs ++ ys) ≡ take n xs
take_all zero xs ys h = refl
take_all (suc n) [] ys h = absurd (omega arith)
take_all (suc n) (x ∷ xs) ys h = ap (λ l. x ∷ l) (take_all n xs ys (omega arith))

take_more :
    (n : ℕ) (xs ys : Bytes)
    → length xs ≤ n
    → take n (xs ++ ys) ≡ take n xs ++ take (n - length xs) ys
take_more zero [] ys h = refl
take_more zero (x ∷ xs) ys h = absurd (omega arith)
take_more (suc n) [] ys h = let same : suc n - 0 ≡ suc n = omega arith in rw same refl
take_more (suc n) (x ∷ xs) ys h =
    let same : suc n - suc (length xs) ≡ n - length xs = omega arith in
    rw same (ap (λ l. x ∷ l) (take_more n xs ys (omega arith)))

kept_more :
    (n : ℕ) (xs ys : Bytes)
    → (if ltb (length xs) n then take n xs ++ take (n - length xs) ys else take n xs)
      ≡ take n (xs ++ ys)
kept_more n xs ys = elim (Bool-cases (ltb (length xs) n)) [
  | inl t ↦ rw t (sym (take_more n xs ys (ground arith)))
  | inr t ↦ rw t (sym (take_all n xs ys (ground arith)))
]

exceeded_more : (n a b : ℕ) → (if ltb n (a + b) then true else ltb n a) ≡ ltb n (a + b)
exceeded_more n a b = ground arith

capture_chunk-capture_of :
    (max_bytes : ℕ) (chunk before : Bytes)
    → capture_chunk max_bytes chunk (capture_of max_bytes before)
      ≡ capture_of max_bytes (before ++ chunk)
capture_chunk-capture_of max_bytes chunk before =
    rw
      (
        length-append before chunk,
        kept_more max_bytes before chunk,
        exceeded_more max_bytes (length before) (length chunk),
      )
      refl

capture_stream_from :
    (max_bytes : ℕ) (chunks : List Bytes) (before : Bytes)
    → capture_stream max_bytes chunks (capture_of max_bytes before)
      ≡ capture_of max_bytes (before ++ whole_stream chunks)
unfolding capture_stream whole_stream
capture_stream_from max_bytes [] before = rw append-nil refl
capture_stream_from max_bytes ([] ∷ chunks) before = rw append-nil refl
capture_stream_from max_bytes ((b ∷ bytes) ∷ chunks) before =
    rw (← append_assoc before (b ∷ bytes) (whole_stream chunks)) (
      ap (capture_stream max_bytes chunks) (capture_chunk-capture_of max_bytes (b ∷ bytes) before)
      ∙ capture_stream_from max_bytes chunks (before ++ b ∷ bytes))

take_nil : (n : ℕ) → take {A = ℕ} n [] ≡ []
take_nil zero = refl
take_nil (suc n) = refl

-- However the stream's bytes are cut into chunks, the thread keeps the first bytes of the stream up
-- to the limit and counts them all up to its end, and sets the event exactly when they are more
-- than the limit.
pub capture_stream-capture_of :
    (max_bytes : ℕ) (chunks : List Bytes)
    → capture_stream max_bytes chunks start_capture ≡ capture_of max_bytes (whole_stream chunks)
capture_stream-capture_of max_bytes chunks =
    let here : start_capture ≡ capture_of max_bytes [] =
      rw (take_nil max_bytes, le→ltb_false max_bytes 0 (omega arith)) refl in
    ap (capture_stream max_bytes chunks) here ∙ capture_stream_from max_bytes chunks []
