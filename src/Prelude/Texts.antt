-- ===== src/Prelude/Texts.antt =====
-- Texts by their characters: their size, and `str.strip`.
use Prim.Native.Char.{Char, code}
use Prim.Native.String.{String, ◌++◌ as join}
use Prim.Native.Nat.{ℕ, zero, suc, ◌+◌, min}
use Prim.Native.String.append
use mathlib.Core.Path.{◌≡◌, refl, sym, ap, ◌∙◌}
use mathlib.Core.Bool.{Bool, false, ◌&&◌, ◌||◌}
use mathlib.Core.Logic.{inl, inr}
use native.Mathlib.Omega.{arith}
use text.Mathlib.Text.{◌==◌}
use model_courier.Prelude.Tests.{eqb, leb, if◌then◌else◌, Bool-cases}

-- `len(text)`
unfoldable pub size : String → ℕ
size String.[] = 0
size (String.◌∷◌ c rest) = suc (size rest)

-- `str.isspace` of one character
abbrev pub is_blank : Char → Bool
is_blank c =
    let n = code c in
    leb 9 n && leb n 13
    || leb 28 n && leb n 32
    || eqb n 133
    || eqb n 160
    || eqb n 5760
    || leb 8192 n && leb n 8202
    || eqb n 8232
    || eqb n 8233
    || eqb n 8239
    || eqb n 8287
    || eqb n 12288

-- `text[:n]`
unfoldable pub first_chars : ℕ → String → String
first_chars zero s = String.[]
first_chars (suc n) String.[] = String.[]
first_chars (suc n) (String.◌∷◌ c s) = String.◌∷◌ c (first_chars n s)

-- `text[n:]`
unfoldable pub from_char : ℕ → String → String
from_char zero s = s
from_char (suc n) String.[] = String.[]
from_char (suc n) (String.◌∷◌ c s) = from_char n s

pub size-first_chars : (n : ℕ) (s : String) → size (first_chars n s) ≡ min n (size s)
unfolding size first_chars
size-first_chars zero s = omega arith
size-first_chars (suc n) String.[] = omega arith
size-first_chars (suc n) (String.◌∷◌ c s) = omega (arith, size-first_chars n s)

pub size-join : (a b : String) → size (join a b) ≡ size a + size b
unfolding size
size-join String.[] b = rw append.nil (omega arith)
size-join (String.◌∷◌ c a) b = rw append.cons (omega (arith, size-join a b))

unfoldable pub strip_left : (Char → Bool) → String → String
strip_left drops String.[] = String.[]
strip_left drops (String.◌∷◌ c rest) =
    let stripped = strip_left drops rest in if drops c then stripped else String.◌∷◌ c rest

unfoldable pub strip_right : (Char → Bool) → String → String
strip_right drops String.[] = String.[]
strip_right drops (String.◌∷◌ c rest) =
    let stripped = strip_right drops rest in
    if drops c && stripped == "" then "" else String.◌∷◌ c stripped

abbrev pub strip : (Char → Bool) → String → String
strip drops text = strip_right drops (strip_left drops text)

module _ (drops : Char → Bool) where
  strip_right-strip_right :
      (text : String) → strip_right drops (strip_right drops text) ≡ strip_right drops text
  unfolding strip_right
  strip_right-strip_right String.[] = refl
  strip_right-strip_right (String.◌∷◌ c rest) =
      elim (Bool-cases (drops c && strip_right drops rest == "")) [
        | inl t ↦ rw t refl
        | inr t ↦ rw t (rw (strip_right-strip_right rest, t) refl)
      ]

  strip_left_kept :
      (c : Char) (rest : String)
      → drops c ≡ false
      → strip_left drops (String.◌∷◌ c rest) ≡ String.◌∷◌ c rest
  unfolding strip_left
  strip_left_kept c rest n = rw n refl

  strip_right_kept :
      (c : Char) (rest : String)
      → drops c ≡ false
      → strip_right drops (String.◌∷◌ c rest) ≡ String.◌∷◌ c (strip_right drops rest)
  unfolding strip_right
  strip_right_kept c rest n = rw n refl

  strip_left-strip_right :
      (text : String)
      → strip_left drops (strip_right drops (strip_left drops text))
        ≡ strip_right drops (strip_left drops text)
  unfolding strip_left strip_right
  strip_left-strip_right String.[] = refl
  strip_left-strip_right (String.◌∷◌ c rest) = elim (Bool-cases (drops c)) [
    | inl t ↦ rw t (strip_left-strip_right rest)
    | inr n ↦
        let kept = strip_right_kept c rest n in
        ap (λ x. strip_left drops (strip_right drops x)) (strip_left_kept c rest n)
        ∙ ap (strip_left drops) kept
        ∙ strip_left_kept c (strip_right drops rest) n
        ∙ sym kept
        ∙ ap (strip_right drops) (sym (strip_left_kept c rest n))
  ]

  pub strip-strip : (text : String) → strip drops (strip drops text) ≡ strip drops text
  strip-strip text =
      ap (strip_right drops) (strip_left-strip_right text)
      ∙ strip_right-strip_right (strip_left drops text)
