-- ===== src/Agent/Secrets.antt =====
-- `_reject_secrets` of agent/store.py. `lower` is `str.lower`, and `show` the text of a list's index.
use Prim.Native.String.{◌++◌ as join}
use text.Mathlib.Text.{starts_with}
use model_courier.Prelude.{
  ℕ, suc, ◌≡◌, refl, ◌↔◌, String, Bool, false, Option, none, some, arith, ◌||◌, Bool-cases, inl,
  inr, if◌then◌else◌,
}
use model_courier.Agent.Json.{
  Value, null, boolean, number, string, array, object, Items, nil, cons, Fields, end, field,
}

-- `word in s`
unfoldable pub has_infix : String → String → Bool
has_infix word String.[] = starts_with String.[] word
has_infix word (String.◌∷◌ c s) = starts_with (String.◌∷◌ c s) word || has_infix word s

module _ (lower : String → String) (show : ℕ → String) where
  unfoldable pub is_secret : String → Bool
  is_secret key =
      has_infix "token" (lower key)
      || has_infix "secret" (lower key)
      || has_infix "password" (lower key)
      || has_infix "authorization" (lower key)

  abbrev pub first_of : Option String → Option String → Option String
  first_of none later = later
  first_of (some key) later = some key

  -- The path of the first key that names a secret, which the ValueError tells.
  unfoldable mutual
    pub reject_secrets : Value → String → Option String
    reject_secrets null path = none
    reject_secrets (boolean b) path = none
    reject_secrets (number n) path = none
    reject_secrets (string s) path = none
    reject_secrets (array items) path = reject_items items 0 path
    reject_secrets (object fields) path = reject_fields fields path

    pub reject_items : Items → ℕ → String → Option String
    reject_items nil index path = none
    reject_items (cons v rest) index path =
        first_of (reject_secrets v (join (join path (show index)) "."))
          (reject_items rest (suc index) path)

    pub reject_fields : Fields → String → Option String
    reject_fields end path = none
    reject_fields (field key v rest) path =
        if is_secret key
        then some (join path key)
        else first_of (reject_secrets v (join (join path key) ".")) (reject_fields rest path)

  -- No key at any depth names a secret.
  mutual
    pub data IsOpen : Value → Type 0 where
      null_open : IsOpen null
      boolean_open : (b : Bool) → IsOpen (boolean b)
      number_open : (n : String) → IsOpen (number n)
      string_open : (s : String) → IsOpen (string s)
      array_open : (items : Items) → AllOpen items → IsOpen (array items)
      object_open : (fields : Fields) → FieldsOpen fields → IsOpen (object fields)

    pub data AllOpen : Items → Type 0 where
      nil_open : AllOpen nil
      cons_open : (v : Value) (rest : Items) → IsOpen v → AllOpen rest → AllOpen (cons v rest)

    pub data FieldsOpen : Fields → Type 0 where
      end_open : FieldsOpen end
      field_open :
          (key : String) (v : Value) (rest : Fields)
          → is_secret key ≡ false
          → IsOpen v
          → FieldsOpen rest
          → FieldsOpen (field key v rest)

  first_of-none : (a b : Option String) → first_of a b ≡ none → (a ≡ none) × (b ≡ none)
  first_of-none none b e = (refl, e)
  first_of-none (some k) b e = absurd (ground arith)

  mutual
    unfolding reject_secrets

    none-IsOpen : (v : Value) (path : String) → reject_secrets v path ≡ none → IsOpen v
    none-IsOpen null path e = null_open
    none-IsOpen (boolean b) path e = boolean_open b
    none-IsOpen (number n) path e = number_open n
    none-IsOpen (string s) path e = string_open s
    none-IsOpen (array items) path e = array_open items (none-AllOpen items 0 path e)
    none-IsOpen (object fields) path e = object_open fields (none-FieldsOpen fields path e)

    none-AllOpen :
        (items : Items) (index : ℕ) (path : String)
        → reject_items items index path ≡ none
        → AllOpen items
    none-AllOpen nil index path e = nil_open
    none-AllOpen (cons v rest) index path e =
        let (here, later) = first_of-none _ _ e in
        cons_open v rest (none-IsOpen v _ here) (none-AllOpen rest (suc index) path later)

    none-FieldsOpen :
        (fields : Fields) (path : String) → reject_fields fields path ≡ none → FieldsOpen fields
    none-FieldsOpen end path e = end_open
    none-FieldsOpen (field key v rest) path e = elim (Bool-cases (is_secret key)) [
      | inl t ↦ absurd (ground arith)
      | inr f ↦
          let (here, later) = first_of-none _ _ (rw f at e) in
          field_open key v rest f (none-IsOpen v _ here) (none-FieldsOpen rest path later)
    ]

  mutual
    unfolding reject_secrets

    IsOpen-none : (v : Value) (path : String) → IsOpen v → reject_secrets v path ≡ none
    IsOpen-none v path null_open = refl
    IsOpen-none v path (boolean_open b) = refl
    IsOpen-none v path (number_open n) = refl
    IsOpen-none v path (string_open s) = refl
    IsOpen-none v path (array_open items h) = AllOpen-none items 0 path h
    IsOpen-none v path (object_open fields h) = FieldsOpen-none fields path h

    AllOpen-none :
        (items : Items) (index : ℕ) (path : String)
        → AllOpen items
        → reject_items items index path ≡ none
    AllOpen-none items index path nil_open = refl
    AllOpen-none items index path (cons_open v rest h t) =
        rw (IsOpen-none v (join (join path (show index)) ".") h)
          (AllOpen-none rest (suc index) path t)

    FieldsOpen-none :
        (fields : Fields) (path : String) → FieldsOpen fields → reject_fields fields path ≡ none
    FieldsOpen-none fields path end_open = refl
    FieldsOpen-none fields path (field_open key v rest s h t) =
        rw (s, IsOpen-none v (join (join path key) ".") h) (FieldsOpen-none rest path t)

  -- The search for secrets raises on no path exactly when no key at any depth of the value names a
  -- secret, whatever path it starts with.
  pub reject_secrets-IsOpen :
      (v : Value) (path : String) → (reject_secrets v path ≡ none) ↔ IsOpen v
  reject_secrets-IsOpen v path = (none-IsOpen v path, IsOpen-none v path)
