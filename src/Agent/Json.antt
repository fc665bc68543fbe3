-- ===== src/Agent/Json.antt =====
-- JSON values as `json.loads` makes them: the keys of an object are distinct, in their order.
use Prim.Native.String.{◌++◌ as join}
use model_courier.Prelude.{String, Bool, Option, none, some, List, [], ◌∷◌, ◌==◌, if◌then◌else◌}
use model_courier.Server.Storage.{of_char}

mutual
  pub data Value : Type 0 where
    null : Value
    boolean : Bool → Value
    number : (numeral : String) → Value
    string : String → Value
    array : Items → Value
    object : Fields → Value

  pub data Items : Type 0 where
    nil : Items
    cons : Value → Items → Items

  pub data Fields : Type 0 where
    end : Fields
    field : String → Value → Fields → Fields

-- `d.get(key)`; None stands for a missing key, and `none` for both only where the code says so.
unfoldable pub get : String → Fields → Option Value
get key end = none
get key (field k v rest) = if k == key then some v else get key rest

-- `isinstance(value, list) and all(isinstance(item, str) for item in value)`: the texts.
unfoldable pub all_texts : Items → Option (List String)
all_texts nil = some []
all_texts (cons (string s) rest) = elim (all_texts rest) [ none ↦ none | some l ↦ some (s ∷ l) ]
all_texts (cons _ rest) = none

abbrev pub texts_of : Value → Option (List String)
texts_of (array items) = all_texts items
texts_of _ = none

-- `path.split(".")`, with the part that was read so far.
unfoldable pub split_dots : String → String → List String
split_dots part String.[] = part ∷ []
split_dots part (String.◌∷◌ c rest) =
    let ended = split_dots "" rest in
    let longer = split_dots (join part (of_char c)) rest in
    if of_char c == "." then part ∷ ended else longer
