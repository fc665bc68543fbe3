-- ===== src/Agent/Store.antt =====
-- agent/store.py. A binding's row keeps the JSON text; `encode` is the `json.dumps` of `save_binding`,
-- `decode` the parse and validation of that text, and `digest` is `canonical_json_digest`.
pub mod Trust
pub mod Marks
use Prim.Native.String.{compare}
use text.Mathlib.Text.{is_le}
use model_courier.Prelude.{
  ℕ, String, Bool, true, false, Option, none, some, List, [], ◌∷◌, ◌++◌, map, not, ◌==◌, ◌&&◌,
  holds, if◌then◌else◌,
}
use model_courier.Prelude.Tables.{find, modify, select}
use model_courier.Agent.Models.{ModelBinding, dump}
use model_courier.Agent.Secrets.{reject_secrets}

pub record BindingRow : Type 0 where
  pub binding_id : String
  pub binding_json : String
  pub verified : Bool
  pub verified_digest : Option String

-- The two tables; `agent_state` has one row.
pub record AgentStore : Type 0 where
  pub bindings : List BindingRow
  pub accepting : Bool

abbrev pub row_key : BindingRow → String
row_key r = r.binding_id

abbrev pub find_binding : String → AgentStore → Option BindingRow
find_binding binding_id s = find row_key binding_id s.bindings

abbrev pub modify_binding : String → (BindingRow → BindingRow) → AgentStore → AgentStore
modify_binding binding_id f s = record s { bindings = modify row_key binding_id f s.bindings }

-- A row of a table from before the column `verified_digest`.
pub record OldRow : Type 0 where
  pub binding_id : String
  pub binding_json : String
  pub verified : Bool

pub data Saved : Type 0 where
  saved : Saved
  secret_value : (path : String) → Saved

-- ORDER BY binding_id
unfoldable pub insert_by_id : BindingRow → List BindingRow → List BindingRow
insert_by_id x [] = x ∷ []
insert_by_id x (y ∷ ys) =
    if is_le (compare x.binding_id y.binding_id) then x ∷ y ∷ ys else y ∷ insert_by_id x ys

unfoldable pub order_by_id : List BindingRow → List BindingRow
unfolding insert_by_id
order_by_id [] = []
order_by_id (x ∷ xs) = insert_by_id x (order_by_id xs)

abbrev pub set_accepting : Bool → AgentStore → AgentStore
set_accepting accepting s = record s { accepting = accepting }

abbrev pub unverify : BindingRow → BindingRow
unverify r = record r { verified = false; verified_digest = none }

abbrev pub mark : String → BindingRow → BindingRow
mark current_digest r = record r { verified = true; verified_digest = some current_digest }

-- `expected_digest is not None and expected_digest != current_digest`
abbrev pub unexpected : Option String → String → Bool
unexpected none current_digest = false
unexpected (some d) current_digest = not (d == current_digest)

abbrev pub is_there : Option BindingRow → Bool
is_there none = false
is_there (some r) = true

abbrev pub has_json : String → Option BindingRow → Bool
has_json binding_json none = false
has_json binding_json (some r) = r.binding_json == binding_json

-- `not row["verified"] or not row["verified_digest"]`, and the comparison after it
abbrev pub is_trusted_by : Bool → Option String → String → Bool
is_trusted_by verified none current_digest = false
is_trusted_by verified (some d) current_digest = verified && not (d == "") && d == current_digest

-- `mark_verified(binding_id, False)`
unfoldable pub mark_unverified : String → AgentStore → Bool × AgentStore
mark_unverified binding_id s =
    (is_there (find_binding binding_id s), modify_binding binding_id unverify s)

module _ (encode : ModelBinding → String) (lower : String → String) (show : ℕ → String) where
  abbrev pub row_of : ModelBinding → BindingRow
  row_of b = record {
    binding_id = b.binding_id;
    binding_json = encode b;
    verified = false;
    verified_digest = none;
  }

  -- INSERT ... ON CONFLICT(binding_id) DO UPDATE
  unfoldable pub upsert_binding : ModelBinding → List BindingRow → List BindingRow
  upsert_binding b rows = elim (find row_key b.binding_id rows) [
    | none ↦ rows ++ row_of b ∷ []
    | some _ ↦
        modify row_key b.binding_id (λ r. unverify (record r { binding_json = encode b })) rows
  ]

  unfoldable pub save_binding : ModelBinding → AgentStore → Saved × AgentStore
  save_binding b s = elim (reject_secrets lower show (dump b) "") [
    | some path ↦ (secret_value path, s)
    | none ↦ (saved, record s { bindings = upsert_binding b s.bindings })
  ]

module _ (decode : String → ModelBinding) (digest : ModelBinding → String) where
  abbrev pub migrated : OldRow → BindingRow
  migrated r = record {
    binding_id = r.binding_id;
    binding_json = r.binding_json;
    verified = r.verified;
    verified_digest = if r.verified then some (digest (decode r.binding_json)) else none;
  }

  -- `initialize` on tables of the old form, and on a new file.
  unfoldable pub migrate : List OldRow → Bool → AgentStore
  migrate rows accepting = record { bindings = map migrated rows; accepting = accepting }

  unfoldable pub list_bindings : AgentStore → List ModelBinding
  list_bindings s = map (λ r. decode r.binding_json) (order_by_id s.bindings)

  unfoldable pub get_binding : String → AgentStore → Option ModelBinding
  get_binding binding_id s = elim (find_binding binding_id s) [
    | none ↦ none
    | some r ↦ some (decode r.binding_json)
  ]

  -- The last UPDATE of `mark_verified`, for the text that the SELECT before it has read.
  abbrev pub mark_read : String → BindingRow → BindingRow
  mark_read binding_json r =
      if r.binding_json == binding_json then mark (digest (decode binding_json)) r else r

  unfoldable pub mark_written : String → String → AgentStore → Bool × AgentStore
  mark_written binding_id binding_json s = (
    has_json binding_json (find_binding binding_id s),
    modify_binding binding_id (mark_read binding_json) s,
  )

  abbrev pub mark_found :
      String → Option String → Option BindingRow → AgentStore → Bool × AgentStore
  mark_found binding_id expected_digest none s = (false, s)
  mark_found binding_id expected_digest (some r) s =
      if unexpected expected_digest (digest (decode r.binding_json))
      then (false, s)
      else mark_written binding_id r.binding_json s

  unfoldable pub mark_verified : String → Option String → AgentStore → Bool × AgentStore
  mark_verified binding_id expected_digest s =
      mark_found binding_id expected_digest (find_binding binding_id s) s

  abbrev pub is_trusted : BindingRow → Bool
  is_trusted r = is_trusted_by r.verified r.verified_digest (digest (decode r.binding_json))

  abbrev pub is_trusted_row : Option BindingRow → Bool
  is_trusted_row none = false
  is_trusted_row (some r) = is_trusted r

  unfoldable pub is_verified : String → AgentStore → Bool
  is_verified binding_id s = is_trusted_row (find_binding binding_id s)

  unfoldable pub any_trusted : List BindingRow → Bool
  any_trusted [] = false
  any_trusted (r ∷ rows) = let rest = any_trusted rows in if is_trusted r then true else rest

  unfoldable pub has_verified_enabled_binding : AgentStore → Bool
  has_verified_enabled_binding s =
      any_trusted
        (select (λ (r : BindingRow). r.verified && (decode r.binding_json).enabled) s.bindings)

  -- `none` is the KeyError.
  unfoldable pub binding_digest : String → AgentStore → Option String
  binding_digest binding_id s = elim (get_binding binding_id s) [
    | none ↦ none
    | some b ↦ some (digest b)
  ]

unfoldable pub raw_binding_json : String → AgentStore → Option String
raw_binding_json binding_id s = elim (find_binding binding_id s) [
  | none ↦ none
  | some r ↦ some r.binding_json
]
