-- ===== src/Server/Routes/Bearer.antt =====
-- dependencies.py: the principal of a request, from its `Authorization` header.
pub mod Laws
use Prim.Native.Char.{Char, code}
use model_courier.Prelude.{
  ℕ, ◌+◌, String, Bool, true, false, Option, none, some, List, [], ◌∷◌, not, eqb, leb, ◌==◌, ◌&&◌,
  ◌||◌, if◌then◌else◌,
}
use model_courier.Prelude.Texts.{is_blank, strip, from_char}
use model_courier.Server.Exec.{Error, Result, ok, err, authentication}
use model_courier.Server.Db.{Db}
use model_courier.Server.Tokens.{PrincipalKind, device, worker, Principal, authenticate}
use model_courier.Server.Routes.{Reply, answers, refuses, server_error}

-- The character is the small letter, or its capital.
abbrev pub lowers_to : ℕ → Char → Bool
lowers_to letter c =
    eqb (code c) letter || leb 97 letter && leb letter 122 && eqb (code c + 32) letter

-- `authorization.lower().startswith(...)`; no other letter has these as its small ones.
unfoldable pub begins_lower : List ℕ → String → Bool
begins_lower [] text = true
begins_lower (letter ∷ letters) String.[] = false
begins_lower (letter ∷ letters) (String.◌∷◌ c rest) =
    lowers_to letter c && begins_lower letters rest

-- "bearer "
abbrev pub bearer : List ℕ
bearer = 98 ∷ 101 ∷ 97 ∷ 114 ∷ 101 ∷ 114 ∷ 32 ∷ []

abbrev pub missing : Reply String
missing = refuses 401 "missing bearer token"

unfoldable pub bearer_value : Option String → Reply String
bearer_value none = missing
bearer_value (some authorization) =
    let token = strip is_blank (from_char 7 authorization) in
    if not (begins_lower bearer authorization)
    then missing
    else if token == ""
    then missing
    else answers token

abbrev pub identified : Result Principal → Reply Principal
identified (ok p) = answers p
identified (err (authentication detail)) = refuses 401 detail
identified (err _) = server_error

module _ (sha256 : String → String) where
  abbrev pub identify : PrincipalKind → Reply String → Db → Reply Principal
  identify kind (answers token) db = identified (authenticate sha256 kind token db)
  identify kind (refuses status detail) db = refuses status detail

  unfoldable pub device_principal : Option String → Db → Reply Principal
  device_principal authorization db = identify device (bearer_value authorization) db

  unfoldable pub worker_principal : Option String → Db → Reply Principal
  worker_principal authorization db = identify worker (bearer_value authorization) db
