-- ===== src/Agent/Http/Config.antt =====
-- agent/http_adapter.py: the validation of `HttpAdapterConfig`. The arguments are what the validation
-- library strips off a text, and the scheme and the network location that `urlparse` finds. The
-- bounds of `timeout` are left out, as the field is.
use Prim.Native.Char.{Char, code}
use model_courier.Prelude.{
  ◌≡◌, refl, subst, inl, inr, String, Bool, true, false, Option, none, some, not, eqb, leb, ◌==◌,
  ◌&&◌, ◌||◌, if◌then◌else◌, Bool-cases, arith,
}
use model_courier.Prelude.Texts.{strip_right}
use model_courier.Contracts.Checks.{is_within, is_optional}
use model_courier.Contracts.Models.{stripped}
use model_courier.Agent.Http.{HttpAdapterConfig}

abbrev pub is_slash : Char → Bool
is_slash c = eqb (code c) 47

-- `value.startswith("/")`
abbrev pub begins_slash : String → Bool
begins_slash String.[] = false
begins_slash (String.◌∷◌ c rest) = is_slash c

-- `value.rstrip("/")`
abbrev pub without_slashes : String → String
without_slashes = strip_right is_slash

module _ (strip scheme netloc : String → String) where
  abbrev pub strip_config : HttpAdapterConfig → HttpAdapterConfig
  strip_config c = record {
    base_url = strip c.base_url;
    path = strip c.path;
    method = strip c.method;
    input_field = strip c.input_field;
    model_field = stripped strip c.model_field;
    model_name = stripped strip c.model_name;
    response_path = strip c.response_path;
    max_response_bytes = c.max_response_bytes;
  }

  -- `validate_base_url`, before the slashes go.
  abbrev pub is_base_url : String → Bool
  is_base_url value =
      (scheme value == "http" || scheme value == "https") && not (netloc value == "")

  unfoldable pub is_config : HttpAdapterConfig → Bool
  is_config c =
      is_within 1 2048 c.base_url
      && is_within 1 512 c.path
      && (c.method == "POST" || c.method == "PUT")
      && is_within 1 128 c.input_field
      && is_optional (is_within 0 128) c.model_field
      && is_optional (is_within 0 256) c.model_name
      && is_within 1 256 c.response_path
      && leb 1 c.max_response_bytes
      && leb c.max_response_bytes 67108864
      && is_base_url c.base_url
      && begins_slash c.path

  unfoldable pub validate_config : HttpAdapterConfig → Option HttpAdapterConfig
  validate_config raw =
      let c = strip_config raw in
      if is_config c then some (record c { base_url = without_slashes c.base_url }) else none

-- The last character of a text that is not empty passes the test.
unfoldable pub ends : (Char → Bool) → String → Bool
ends test String.[] = false
ends test (String.◌∷◌ c rest) = let later = ends test rest in if rest == "" then test c else later

ends-strip_right :
    (drops : Char → Bool) (text : String) → ends drops (strip_right drops text) ≡ false
unfolding strip_right ends
ends-strip_right drops String.[] = refl
ends-strip_right drops (String.◌∷◌ c rest) =
    elim (Bool-cases (drops c && strip_right drops rest == "")) [
      | inl t ↦ rw t refl
      | inr t ↦ rw t (elim (Bool-cases (strip_right drops rest == "")) [
        | inl e ↦ rw e (ground arith)
        | inr e ↦ rw e (ends-strip_right drops rest)
      ])
    ]

is_config-begins :
    (strip scheme netloc : String → String) (c : HttpAdapterConfig)
    → is_config strip scheme netloc c ≡ true
    → begins_slash c.path ≡ true
unfolding is_config
is_config-begins strip scheme netloc c t = ground arith

-- The base of a configuration that is accepted ends with no slash, and its path begins with one.
pub validate_config-ends :
    (strip scheme netloc : String → String) (raw c : HttpAdapterConfig)
    → validate_config strip scheme netloc raw ≡ some c
    → (ends is_slash c.base_url ≡ false) × (begins_slash c.path ≡ true)
unfolding validate_config
validate_config-ends strip scheme netloc raw c e =
    elim (Bool-cases (is_config strip scheme netloc (strip_config strip scheme netloc raw))) [
      | inl t ↦
          let kept = strip_config strip scheme netloc raw in
          let same : record kept { base_url = without_slashes kept.base_url } ≡ c =
            ground (arith, rw (t, validate_config) at e) in
          (
            subst (λ (x : HttpAdapterConfig). ends is_slash x.base_url ≡ false) same
                (ends-strip_right is_slash kept.base_url),
            subst (λ (x : HttpAdapterConfig). begins_slash x.path ≡ true) same
                (is_config-begins strip scheme netloc kept t),
          )
      | inr n ↦ absurd (let h = rw (n, validate_config) at e in cc)
    ]
