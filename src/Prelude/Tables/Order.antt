-- ===== src/Prelude/Tables/Order.antt =====
-- About ORDER BY and LIMIT: the order of the rows, and which are there.
use Prim.Native.Nat.{ℕ, zero, suc, ◌≤◌, ◌<◌}
use mathlib.Core.Path.{◌≡◌, refl, ap, ◌∙◌}
use mathlib.Core.Logic.{inl, inr}
use mathlib.Core.Bool.{Bool, true}
use mathlib.Core.List.{List, [], ◌∷◌}
use native.Mathlib.Omega.{arith}
use model_courier.Prelude.Tests.{leb, leb→le, leb→gt, Bool-cases}
use model_courier.Prelude.Lists.{All, All-mono, All-take, length, take}
use model_courier.Prelude.Tables.{select, count, insert_by, order_by}
use model_courier.Prelude.Tables.Laws.{insert_by-All}

le_of_gt : (a b : ℕ) → a < b → a ≤ b
le_of_gt a b h = omega arith

module _ {ℓ} {A : Type ℓ} (key : A → ℕ) where
  abbrev pub IsOrdered : List A → Type 0
  IsOrdered [] = Unit
  IsOrdered (x ∷ xs) = All (λ y. key x ≤ key y) xs × IsOrdered xs

  insert_by-IsOrdered : (x : A) (xs : List A) → IsOrdered xs → IsOrdered (insert_by key x xs)
  unfolding insert_by
  insert_by-IsOrdered x [] h = (tt, tt)
  insert_by-IsOrdered x (y ∷ ys) h = elim (Bool-cases (leb (key x) (key y))) [
    | inl e ↦ let le = leb→le _ _ e in rw e ((le, All-mono _ _ ys (λ z p. omega arith) h.0), h)
    | inr e ↦ rw e (
      insert_by-All _ key x ys (le_of_gt (key y) (key x) (leb→gt _ _ e)) h.0,
      insert_by-IsOrdered x ys h.1,
    )
  ]

  pub order_by-IsOrdered : (xs : List A) → IsOrdered (order_by key xs)
  unfolding order_by
  order_by-IsOrdered [] = tt
  order_by-IsOrdered (x ∷ xs) = insert_by-IsOrdered x (order_by key xs) (order_by-IsOrdered xs)

  pub take-IsOrdered : (n : ℕ) (xs : List A) → IsOrdered xs → IsOrdered (take n xs)
  take-IsOrdered zero xs h = tt
  take-IsOrdered (suc n) [] h = tt
  take-IsOrdered (suc n) (x ∷ xs) h = (All-take _ n xs h.0, take-IsOrdered n xs h.1)

  length-insert_by : (x : A) (xs : List A) → length (insert_by key x xs) ≡ suc (length xs)
  unfolding insert_by
  length-insert_by x [] = refl
  length-insert_by x (y ∷ ys) = elim (Bool-cases (leb (key x) (key y))) [
    | inl e ↦ rw e refl
    | inr e ↦ rw e (ap suc (length-insert_by x ys))
  ]

  pub length-order_by : (xs : List A) → length (order_by key xs) ≡ length xs
  unfolding order_by
  length-order_by [] = refl
  length-order_by (x ∷ xs) = length-insert_by x (order_by key xs) ∙ ap suc (length-order_by xs)

  All-insert_by :
      (P : A → Type 0) (x : A) (xs : List A) → All P (insert_by key x xs) → P x × All P xs
  unfolding insert_by
  All-insert_by P x [] h = (h.0, tt)
  All-insert_by P x (y ∷ ys) h = elim (Bool-cases (leb (key x) (key y))) [
    | inl e ↦ let h' = rw e at h in (h'.0, h'.1)
    | inr e ↦ let h' = rw e at h in let r = All-insert_by P x ys h'.1 in (r.0, (h'.0, r.1))
  ]

  pub All-order_by : (P : A → Type 0) (xs : List A) → All P (order_by key xs) → All P xs
  unfolding order_by
  All-order_by P [] h = tt
  All-order_by P (x ∷ xs) h =
      let r = All-insert_by P x (order_by key xs) h in (r.0, All-order_by P xs r.1)

module _ {ℓ} {A : Type ℓ} where
  pub take_all : (n : ℕ) (xs : List A) → length xs ≤ n → take n xs ≡ xs
  take_all zero [] h = refl
  take_all zero (x ∷ xs) h = absurd (omega arith)
  take_all (suc n) [] h = refl
  take_all (suc n) (x ∷ xs) h = ap (◌∷◌ x) (take_all n xs (omega arith))

  pub length-select : (p : A → Bool) (xs : List A) → length (select p xs) ≡ count p xs
  unfolding select count
  length-select p [] = refl
  length-select p (x ∷ xs) = elim (Bool-cases (p x)) [
    | inl e ↦ rw e (omega (arith, length-select p xs))
    | inr e ↦ rw e (omega (arith, length-select p xs))
  ]

  pub All-select :
      (P : A → Type 0) (p : A → Bool) (xs : List A)
      → All P (select p xs)
      → All (λ x. p x ≡ true → P x) xs
  unfolding select
  All-select P p [] h = tt
  All-select P p (x ∷ xs) h = elim (Bool-cases (p x)) [
    | inl e ↦ let h' = rw e at h in ((λ _. h'.0), All-select P p xs h'.1)
    | inr e ↦ let h' = rw e at h in ((λ t. cc), All-select P p xs h')
  ]
