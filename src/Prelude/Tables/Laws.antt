-- ===== src/Prelude/Tables/Laws.antt =====
-- What the statements on tables do, row by row: two tables related at every row, lookups by primary
-- key across such a relation, and updates that keep to it.
use Prim.Native.Nat.{ℕ}
use Prim.Native.String.{String}
use mathlib.Core.Path.{◌≡◌, refl, ap, subst, ◌∙◌}
use mathlib.Core.Logic.{inl, inr}
use mathlib.Core.Bool.{Bool, true, false}
use mathlib.Core.List.{List, [], ◌∷◌, ◌++◌}
use mathlib.Core.Option.{none, some}
use native.Mathlib.Omega.{arith}
use text.Mathlib.Text.{◌==◌}
use text.Mathlib.TextEquality.{eq_iff}
use text.Mathlib.TextPositions.{eq_refl}
use model_courier.Prelude.Tests.{leb, if◌then◌else◌, Bool-cases}
use model_courier.Prelude.Lists.{All}
use model_courier.Prelude.Tables.{select, select_one, update, insert_by, order_by, find, modify}

module _ {ℓ} {A : Type ℓ} where
  -- Tables of the same length, related row by row.
  abbrev pub Pointwise : (A → A → Type 0) → List A → List A → Type 0
  Pointwise R [] [] = Unit
  Pointwise R [] (y ∷ ys) = ⊥
  Pointwise R (x ∷ xs) [] = ⊥
  Pointwise R (x ∷ xs) (y ∷ ys) = R x y × Pointwise R xs ys

  pub Pointwise-refl : (R : A → A → Type 0) → ((x : A) → R x x) → (xs : List A) → Pointwise R xs xs
  Pointwise-refl R r [] = tt
  Pointwise-refl R r (x ∷ xs) = (r x, Pointwise-refl R r xs)

  pub Pointwise-trans :
      (R : A → A → Type 0)
      → ((x y z : A) → R x y → R y z → R x z)
      → (xs ys zs : List A) → Pointwise R xs ys
      → Pointwise R ys zs
      → Pointwise R xs zs
  Pointwise-trans R t [] [] [] p q = tt
  Pointwise-trans R t [] [] (z ∷ zs) p q = q
  Pointwise-trans R t [] (y ∷ ys) zs p q = absurd p
  Pointwise-trans R t (x ∷ xs) [] zs p q = absurd p
  Pointwise-trans R t (x ∷ xs) (y ∷ ys) [] p q = q
  Pointwise-trans R t (x ∷ xs) (y ∷ ys) (z ∷ zs) p q =
      (t x y z p.0 q.0, Pointwise-trans R t xs ys zs p.1 q.1)

  pub update-Pointwise :
      (R : A → A → Type 0) (p : A → Bool) (f : A → A)
      → ((x : A) → R x (if p x then f x else x))
      → (xs : List A) → Pointwise R xs (update p f xs)
  unfolding update
  update-Pointwise R p f r [] = tt
  update-Pointwise R p f r (x ∷ xs) = (r x, update-Pointwise R p f r xs)

  pub All-Pointwise :
      (R : A → A → Type 0) (P : A → Type 0)
      → ((x y : A) → R x y → P x → P y)
      → (xs ys : List A) → Pointwise R xs ys
      → All P xs
      → All P ys
  All-Pointwise R P k [] [] r h = tt
  All-Pointwise R P k [] (y ∷ ys) r h = absurd r
  All-Pointwise R P k (x ∷ xs) [] r h = tt
  All-Pointwise R P k (x ∷ xs) (y ∷ ys) r h = (k x y r.0 h.0, All-Pointwise R P k xs ys r.1 h.1)

  pub select-All : (P : A → Type 0) (p : A → Bool) (xs : List A) → All P xs → All P (select p xs)
  unfolding select
  select-All P p [] h = tt
  select-All P p (x ∷ xs) h = elim (Bool-cases (p x)) [
    | inl e ↦ rw e (h.0, select-All P p xs h.1)
    | inr e ↦ rw e (select-All P p xs h.1)
  ]

  pub select-All_test : (p : A → Bool) (xs : List A) → All (λ x. p x ≡ true) (select p xs)
  unfolding select
  select-All_test p [] = tt
  select-All_test p (x ∷ xs) = elim (Bool-cases (p x)) [
    | inl e ↦ rw e (e, select-All_test p xs)
    | inr e ↦ rw e (select-All_test p xs)
  ]

  pub select_one-test : (p : A → Bool) (xs : List A) (x : A) → select_one p xs ≡ some x → p x ≡ true
  unfolding select_one
  select_one-test p [] x e = ground arith
  select_one-test p (y ∷ ys) x e = ground (arith, select_one-test p ys x)

  pub select_one-All :
      (P : A → Type 0) (p : A → Bool) (xs : List A) (x : A)
      → select_one p xs ≡ some x
      → All P xs
      → P x
  unfolding select_one
  select_one-All P p [] x e h = absurd (ground arith)
  select_one-All P p (y ∷ ys) x e h = elim (Bool-cases (p y)) [
    | inl t ↦ let same : y ≡ x = ground arith in subst P same h.0
    | inr t ↦ select_one-All P p ys x (rw t at e) h.1
  ]

  pub insert_by-All :
      (P : A → Type 0) (key : A → ℕ) (x : A) (xs : List A)
      → P x
      → All P xs
      → All P (insert_by key x xs)
  unfolding insert_by
  insert_by-All P key x [] h hs = (h, tt)
  insert_by-All P key x (y ∷ ys) h hs = elim (Bool-cases (leb (key x) (key y))) [
    | inl e ↦ rw e (h, hs)
    | inr e ↦ rw e (hs.0, insert_by-All P key x ys h hs.1)
  ]

  pub order_by-All :
      (P : A → Type 0) (key : A → ℕ) (xs : List A) → All P xs → All P (order_by key xs)
  unfolding order_by
  order_by-All P key [] h = tt
  order_by-All P key (x ∷ xs) h =
      insert_by-All P key x (order_by key xs) h.0 (order_by-All P key xs h.1)

-- Tables with a primary key.
module _ {ℓ} {A : Type ℓ} (id : A → String) where
  pub find-id : (k : String) (xs : List A) (x : A) → find id k xs ≡ some x → id x ≡ k
  unfolding find
  find-id k [] x e = ground arith
  find-id k (y ∷ ys) x e = ground (arith, eq_iff (id y) k, find-id k ys x)

  find_head :
      (k : String) (y : A) (ys : List A) (x : A)
      → (id y == k) ≡ true
      → find id k (y ∷ ys) ≡ some x
      → y ≡ x
  unfolding find
  find_head k y ys x t e = ground arith

  pub find-All :
      (P : A → Type 0) (k : String) (xs : List A) (x : A) → find id k xs ≡ some x → All P xs → P x
  unfolding find
  find-All P k [] x e h = absurd (ground arith)
  find-All P k (y ∷ ys) x e h = elim (Bool-cases (id y == k)) [
    | inl t ↦ subst P (find_head k y ys x t e) h.0
    | inr t ↦ find-All P k ys x (rw t at e) h.1
  ]

  pub modify-Pointwise :
      (R : A → A → Type 0) (k : String) (f : A → A)
      → ((x : A) → R x x)
      → (xs : List A) → ((x : A) → find id k xs ≡ some x → R x (f x))
      → Pointwise R xs (modify id k f xs)
  unfolding find modify
  modify-Pointwise R k f r [] h = tt
  modify-Pointwise R k f r (y ∷ ys) h = elim (Bool-cases (id y == k)) [
    | inl t ↦ rw t (h y (rw t), Pointwise-refl R r ys)
    | inr t ↦ rw t (r y, modify-Pointwise R k f r ys (λ x e. h x (rw t e)))
  ]

  pub find-modify :
      (k : String) (f : A → A)
      → ((x : A) → id (f x) ≡ id x)
      → (xs : List A) (x : A) → find id k xs ≡ some x
      → find id k (modify id k f xs) ≡ some (f x)
  unfolding find modify
  find-modify k f keep [] x e = ground arith
  find-modify k f keep (y ∷ ys) x e = elim (Bool-cases (id y == k)) [
    | inl t ↦ rw (t, find) (rw (keep y, t) (ap (λ z. some (f z)) (find_head k y ys x t e)))
    | inr t ↦ rw (t, find) (rw t (find-modify k f keep ys x (rw t at e)))
  ]

  -- Rows that keep their keys are found under them again.
  module _ (R : A → A → Type 0) (keep : (x y : A) → R x y → id y ≡ id x) where
    pub find-Pointwise :
        (k : String) (xs ys : List A) (x : A)
        → Pointwise R xs ys
        → find id k xs ≡ some x
        → (y : A) × (find id k ys ≡ some y) × R x y
    unfolding find
    find-Pointwise k [] ys x r e = absurd (ground arith)
    find-Pointwise k (x' ∷ xs) [] x r e = absurd r
    find-Pointwise k (x' ∷ xs) (y' ∷ ys) x r e = elim (Bool-cases (id x' == k)) [
      | inl t ↦ (y', rw (keep x' y' r.0, t) refl, subst (λ z. R z y') (find_head k x' xs x t e) r.0)
      | inr t ↦ rw (keep x' y' r.0, t) (find-Pointwise k xs ys x r.1 (rw t at e))
    ]

    pub find-Pointwise-none :
        (k : String) (xs ys : List A)
        → Pointwise R xs ys
        → find id k xs ≡ none
        → find id k ys ≡ none
    unfolding find
    find-Pointwise-none k [] [] r e = refl
    find-Pointwise-none k [] (y' ∷ ys) r e = absurd r
    find-Pointwise-none k (x' ∷ xs) [] r e = refl
    find-Pointwise-none k (x' ∷ xs) (y' ∷ ys) r e = elim (Bool-cases (id x' == k)) [
      | inl t ↦ absurd (let h = rw t at e in cc)
      | inr t ↦ rw (keep x' y' r.0, t) (find-Pointwise-none k xs ys r.1 (rw t at e))
    ]

  abbrev pub IsKeyed : List A → Type ℓ
  IsKeyed [] = Unit
  IsKeyed (x ∷ xs) = (find id (id x) xs ≡ none) × IsKeyed xs

  pub find-append_some :
      (k : String) (xs zs : List A) (x : A) → find id k xs ≡ some x → find id k (xs ++ zs) ≡ some x
  unfolding find
  find-append_some k [] zs x e = ground arith
  find-append_some k (y ∷ ys) zs x e = ground (arith, find-append_some k ys zs x)

  pub find-append_none :
      (k : String) (xs zs : List A) → find id k xs ≡ none → find id k (xs ++ zs) ≡ find id k zs
  unfolding find
  find-append_none k [] zs e = refl
  find-append_none k (y ∷ ys) zs e = ground (arith, find-append_none k ys zs)

  keys_differ : (k : String) (xs : List A) → find id k xs ≡ none → All (λ y. (id y == k) ≡ false) xs
  unfolding find
  keys_differ k [] e = tt
  keys_differ k (y ∷ ys) e = elim (Bool-cases (id y == k)) [
    | inl t ↦ absurd (let h = rw t at e in cc)
    | inr t ↦ (t, keys_differ k ys (rw t at e))
  ]

  found-cons :
      (z : A) (zs ys : List A)
      → All (λ y. find id (id y) zs ≡ some y) ys
      → All (λ y. (id y == id z) ≡ false) ys
      → All (λ y. find id (id y) (z ∷ zs) ≡ some y) ys
  unfolding find
  found-cons z zs [] h d = tt
  found-cons z zs (y ∷ ys) h d = (
    ground (arith, h.0, d.0, eq_iff (id y) (id z), eq_iff (id z) (id y)),
    found-cons z zs ys h.1 d.1,
  )

  -- Every row is the one that its key finds.
  pub found-All : (xs : List A) → IsKeyed xs → All (λ x. find id (id x) xs ≡ some x) xs
  unfolding find
  found-All [] h = tt
  found-All (x ∷ xs) h =
      (rw eq_refl refl, found-cons x xs xs (found-All xs h.1) (keys_differ (id x) xs h.0))

  pub IsKeyed-Pointwise :
      (R : A → A → Type 0) (keep : (x y : A) → R x y → id y ≡ id x) (xs ys : List A)
      → Pointwise R xs ys
      → IsKeyed xs
      → IsKeyed ys
  IsKeyed-Pointwise R keep [] [] r h = tt
  IsKeyed-Pointwise R keep [] (y ∷ ys) r h = absurd r
  IsKeyed-Pointwise R keep (x ∷ xs) [] r h = tt
  IsKeyed-Pointwise R keep (x ∷ xs) (y ∷ ys) r h = (
    rw (keep x y r.0) (find-Pointwise-none R keep (id x) xs ys r.1 h.0),
    IsKeyed-Pointwise R keep xs ys r.1 h.1,
  )

  pub IsKeyed-append :
      (xs : List A) (z : A) → IsKeyed xs → find id (id z) xs ≡ none → IsKeyed (xs ++ z ∷ [])
  unfolding find
  IsKeyed-append [] z h e = (refl, tt)
  IsKeyed-append (x ∷ xs) z h e = elim (Bool-cases (id x == id z)) [
    | inl t ↦ absurd (let h' = rw t at e in cc)
    | inr t ↦ (
      find-append_none (id x) xs (z ∷ []) h.0
          ∙ ground (arith, t, eq_iff (id x) (id z), eq_iff (id z) (id x)),
      IsKeyed-append xs z h.1 (rw t at e),
    )
  ]
