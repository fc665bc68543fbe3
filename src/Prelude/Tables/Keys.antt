-- ===== src/Prelude/Tables/Keys.antt =====
-- About the statements on one key: what another key finds.
use Prim.Native.String.{String}
use mathlib.Core.Path.{◌≡◌, refl}
use mathlib.Core.Logic.{inl, inr}
use mathlib.Core.Bool.{false}
use mathlib.Core.List.{List, [], ◌∷◌, ◌++◌}
use mathlib.Core.Option.{none, some}
use native.Mathlib.Omega.{arith}
use text.Mathlib.Text.{◌==◌}
use text.Mathlib.TextEquality.{eq_iff}
use model_courier.Prelude.Tests.{if◌then◌else◌, Bool-cases}
use model_courier.Prelude.Tables.{find, modify}

module _ {ℓ} {A : Type ℓ} (id : A → String) where
  pub find-modify_ne :
      (k j : String) (f : A → A)
      → ((x : A) → id (f x) ≡ id x)
      → (k == j) ≡ false
      → (xs : List A) → find id j (modify id k f xs) ≡ find id j xs
  unfolding find modify
  find-modify_ne k j f keep n [] = refl
  find-modify_ne k j f keep n (x ∷ xs) = elim (Bool-cases (id x == k)) [
    | inl t ↦
        let same : id x ≡ k = (eq_iff (id x) k).0 t in rw (t, find) (rw (keep x, same, n) refl)
    | inr t ↦ rw (t, find) (ground (arith, find-modify_ne k j f keep n xs))
  ]

  pub find-append :
      (j : String) (xs : List A) (z : A)
      → find id (id z) xs ≡ none
      → find id j (xs ++ z ∷ []) ≡ (if id z == j then some z else find id j xs)
  unfolding find
  find-append j [] z e = refl
  find-append j (x ∷ xs) z e = elim (Bool-cases (id x == id z)) [
    | inl t ↦ absurd (ground arith)
    | inr t ↦ ground (
      arith,
      find-append j xs z (rw t at e),
      eq_iff (id x) j,
      eq_iff (id z) j,
      eq_iff (id x) (id z),
    )
  ]
