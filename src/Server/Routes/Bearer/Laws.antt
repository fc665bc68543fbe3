-- ===== src/Server/Routes/Bearer/Laws.antt =====
-- About the header that the clients send for an issued token.
use Prim.Native.String.{◌++◌ as join}
use Prim.Native.String.append
use model_courier.Prelude.{
  ℕ, ◌≡◌, refl, sym, ap, ◌∙◌, String, true, false, some, ◌==◌, List, [], ◌∷◌, Bool-cases, inl, inr,
}
use model_courier.Prelude.Texts.{is_blank, strip, from_char, size}
use model_courier.Server.Exec.{ok}
use model_courier.Server.Db.{Db}
use model_courier.Server.Tokens.{device, issue_device}
use model_courier.Server.Tokens.Laws.{authenticate-issue_device}
use model_courier.Server.Routes.{answers}
use model_courier.Server.Routes.Bearer.{
  lowers_to, begins_lower, bearer, bearer_value, device_principal,
}

-- `f"Bearer {token}"` of the clients.
abbrev pub header : String → String
header token = join "Bearer " token

from_char-join : (a b : String) → from_char (size a) (join a b) ≡ b
unfolding from_char size
from_char-join String.[] b = rw append.nil refl
from_char-join (String.◌∷◌ c a) b = rw append.cons (from_char-join a b)

begins_lower-join :
    (letters : List ℕ) (a b : String)
    → begins_lower letters a ≡ true
    → begins_lower letters (join a b) ≡ true
unfolding begins_lower
begins_lower-join [] a b e = refl
begins_lower-join (letter ∷ letters) String.[] b e = absurd (cc e)
begins_lower-join (letter ∷ letters) (String.◌∷◌ c a) b e = elim (Bool-cases (lowers_to letter c)) [
  | inl t ↦ rw append.cons (rw t (begins_lower-join letters a b (rw t at e)))
  | inr t ↦ absurd (let h = rw t at e in cc)
]

seven : size "Bearer " ≡ 7
unfolding size
seven = refl

begins : begins_lower bearer "Bearer " ≡ true
unfolding begins_lower
begins = refl

bearer_value-header :
    (token : String)
    → strip is_blank token ≡ token
    → (token == "") ≡ false
    → bearer_value (some (header token)) ≡ answers token
unfolding bearer_value
bearer_value-header token s n =
    let rest : from_char 7 (header token) ≡ token =
      ap (λ k. from_char k (header token)) (sym seven) ∙ from_char-join "Bearer " token in
    rw (begins_lower-join bearer "Bearer " token begins, rest, s, n) refl

-- A token that is issued to a device, if it is not empty and nothing is stripped off it, identifies
-- that device for its owner in the header that the clients send for it, also when the device had
-- been revoked.
pub device_principal-issue_device :
    (sha256 : String → String) (token o d t : String) (now : ℕ) (db after : Db)
    → issue_device sha256 token o d now db ≡ (ok t, after)
    → strip is_blank t ≡ t
    → (t == "") ≡ false
    → device_principal sha256 (some (header t)) after
      ≡ answers (record { kind = device; subject_id = d; owner_id = o })
unfolding device_principal
device_principal-issue_device sha256 token o d t now db after e s n =
    rw (bearer_value-header t s n, authenticate-issue_device sha256 token o d t now db after e) refl
