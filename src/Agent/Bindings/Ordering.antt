-- ===== src/Agent/Bindings/Ordering.antt =====
-- About `list_bindings` of agent/store.py: the rows in the order of their ids.
use text.Mathlib.Text.{is_le}
use Prim.Native.String.{compare}
use model_courier.Prelude.{
  ◌≡◌, refl, ◌∙◌, inl, inr, String, none, some, List, [], ◌∷◌, All, arith, eq_iff, ◌==◌, Bool-cases,
  if◌then◌else◌,
}
use model_courier.Prelude.Tables.{find}
use model_courier.Prelude.Tables.Laws.{IsKeyed}
use model_courier.Agent.Store.{BindingRow, row_key, insert_by_id, order_by_id}

find-insert_by_id :
    (k : String) (x : BindingRow) (ys : List BindingRow)
    → find row_key x.binding_id ys ≡ none
    → find row_key k (insert_by_id x ys) ≡ (if x.binding_id == k then some x else find row_key k ys)
unfolding find insert_by_id
find-insert_by_id k x [] e = refl
find-insert_by_id k x (y ∷ ys) e = elim (Bool-cases (is_le (compare x.binding_id y.binding_id))) [
  | inl t ↦ rw t refl
  | inr t ↦ elim (Bool-cases (y.binding_id == x.binding_id)) [
    | inl q ↦ absurd (let h = rw q at e in cc)
    | inr q ↦
        let h : find row_key x.binding_id ys ≡ none = rw q at e in
        rw (t, find)
          (ground (
            arith,
            find-insert_by_id k x ys h,
            eq_iff x.binding_id k,
            eq_iff y.binding_id k,
            eq_iff y.binding_id x.binding_id,
          ))
  ]
]

insert_by_id-IsKeyed :
    (x : BindingRow) (ys : List BindingRow)
    → find row_key x.binding_id ys ≡ none
    → IsKeyed row_key ys
    → IsKeyed row_key (insert_by_id x ys)
unfolding find insert_by_id
insert_by_id-IsKeyed x [] e h = (refl, tt)
insert_by_id-IsKeyed x (y ∷ ys) e h =
    elim (Bool-cases (is_le (compare x.binding_id y.binding_id))) [
      | inl t ↦ rw t (e, h)
      | inr t ↦ elim (Bool-cases (y.binding_id == x.binding_id)) [
        | inl q ↦ absurd (let c = rw q at e in cc)
        | inr q ↦
            let free : find row_key x.binding_id ys ≡ none = rw q at e in
            rw t (
              find-insert_by_id y.binding_id x ys free
                  ∙ ground (
                    arith,
                    h.0,
                    eq_iff x.binding_id y.binding_id,
                    eq_iff y.binding_id x.binding_id,
                  ),
              insert_by_id-IsKeyed x ys free h.1,
            )
      ]
    ]

pub find-order_by_id :
    (k : String) (xs : List BindingRow)
    → IsKeyed row_key xs
    → find row_key k (order_by_id xs) ≡ find row_key k xs
unfolding find order_by_id
find-order_by_id k [] h = refl
find-order_by_id k (x ∷ xs) h =
    find-insert_by_id k x (order_by_id xs) (find-order_by_id x.binding_id xs h.1 ∙ h.0)
    ∙ rw (find-order_by_id k xs h.1) refl

pub order_by_id-IsKeyed :
    (xs : List BindingRow) → IsKeyed row_key xs → IsKeyed row_key (order_by_id xs)
unfolding order_by_id
order_by_id-IsKeyed [] h = tt
order_by_id-IsKeyed (x ∷ xs) h =
    insert_by_id-IsKeyed x (order_by_id xs) (find-order_by_id x.binding_id xs h.1 ∙ h.0)
      (order_by_id-IsKeyed xs h.1)

insert_by_id-All :
    (P : BindingRow → Type 0) (x : BindingRow) (ys : List BindingRow)
    → P x
    → All P ys
    → All P (insert_by_id x ys)
unfolding insert_by_id
insert_by_id-All P x [] e h = (e, tt)
insert_by_id-All P x (y ∷ ys) e h = elim (Bool-cases (is_le (compare x.binding_id y.binding_id))) [
  | inl t ↦ rw t (e, h)
  | inr t ↦ rw t (h.0, insert_by_id-All P x ys e h.1)
]

pub order_by_id-All :
    (P : BindingRow → Type 0) (xs : List BindingRow) → All P xs → All P (order_by_id xs)
unfolding order_by_id
order_by_id-All P [] h = tt
order_by_id-All P (x ∷ xs) h = insert_by_id-All P x (order_by_id xs) h.0 (order_by_id-All P xs h.1)
