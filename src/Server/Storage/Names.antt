-- ===== src/Server/Storage/Names.antt =====
-- What `begin` accepts, and the names of the files that it makes.
use Prim.Native.String.{◌++◌ as join}
use text.Mathlib.TextLemmas.{nil-append, cons-append}
use model_courier.Prelude.{
  ℕ, ◌≤◌, ◌≡◌, ◌≢◌, refl, ◌⊎◌, inl, inr, String, Bool, true, false, arith, ltb, eq_iff, ◌==◌, ◌||◌,
  Bool-cases,
}
use model_courier.Prelude.Int.{ℤ, pos, negsuc}
use model_courier.Server.Exec.{Result, ok, err}
use model_courier.Server.Storage.{
  UploadHandle, begin, begin_within, of_char, keep_component, last_component, base_name, limit_of,
  handle_of,
}

abbrev pub has_slash : String → Bool
has_slash String.[] = false
has_slash (String.◌∷◌ c rest) = of_char c == "/" || has_slash rest

has_slash-join :
    (s t : String) → has_slash s ≡ false → has_slash t ≡ false → has_slash (join s t) ≡ false
has_slash-join String.[] t h k = rw (nil-append t) k
has_slash-join (String.◌∷◌ c s) t h k = rw (cons-append c s t) (ground (arith, has_slash-join s t))

has_slash-keep :
    (component last : String)
    → has_slash component ≡ false
    → has_slash last ≡ false
    → has_slash (keep_component component last) ≡ false
has_slash-keep component last h k = ground arith

-- The last component of a path has no separator.
has_slash-last_component :
    (last component s : String)
    → has_slash component ≡ false
    → has_slash last ≡ false
    → has_slash (last_component last component s) ≡ false
unfolding last_component
has_slash-last_component last component String.[] h k = has_slash-keep component last h k
has_slash-last_component last component (String.◌∷◌ c s) h k =
    elim (Bool-cases (of_char c == "/")) [
      | inl t ↦ rw t (
          has_slash-last_component (keep_component component last) "" s refl
            (has_slash-keep component last h k))
      | inr t ↦ rw t (
          has_slash-last_component last (join component (of_char c)) s
            (has_slash-join component (of_char c) h (rw t refl)) k)
    ]

-- What a handle promises: a known kind, a size within the limit of the kind and the MIME type, and a
-- file name that is the last component of the name that was sent, which stays in the directory.
pub record Accepted (artifact_id task_id kind : String) (size : ℤ) (mime name : String)
    (h : UploadHandle) : Type 0 where
  pub bytes : ℕ
  pub limit : ℕ
  pub known : (kind ≡ "input") ⊎ (kind ≡ "result")
  pub nonneg : size ≡ pos bytes
  pub limited : limit_of kind mime ≡ ok limit
  pub within : bytes ≤ limit
  pub flat : has_slash h.name ≡ false
  pub not_empty : h.name ≢ ""
  pub not_parent : h.name ≢ ".."
  pub made : h ≡ handle_of artifact_id task_id kind bytes mime (base_name name)

begin_within-ok :
    (artifact_id task_id kind : String) (bytes : ℕ) (mime safe_name : String) (r : Result ℕ)
    (h : UploadHandle)
    → begin_within artifact_id task_id kind bytes mime safe_name r ≡ ok h
    → (limit : ℕ) × (r ≡ ok limit)
      × (bytes ≤ limit)
      × ((safe_name == "" || safe_name == "." || safe_name == "..") ≡ false)
      × (h ≡ handle_of artifact_id task_id kind bytes mime safe_name)
begin_within-ok artifact_id task_id kind bytes mime safe_name (err x) h e = absurd (ground arith)
begin_within-ok artifact_id task_id kind bytes mime safe_name (ok limit) h e =
    elim (Bool-cases (ltb limit bytes)) [
      | inl t ↦ absurd (let q = rw t at e in cc)
      | inr t ↦
          let e' = rw t at e in
          elim (Bool-cases (safe_name == "" || safe_name == "." || safe_name == "..")) [
            | inl u ↦ absurd (let q = rw u at e' in cc)
            | inr u ↦ let e'' = rw u at e' in (limit, refl, ground arith, u, ground arith)
          ]
    ]

known_kind :
    (kind : String)
    → (kind == "input" || kind == "result") ≡ true
    → (kind ≡ "input") ⊎ (kind ≡ "result")
known_kind kind t = ground (arith, eq_iff kind "input", eq_iff kind "result")

-- An upload handle is made only for a known kind, a size that is not negative and within the limit
-- of its kind and MIME type, and a file name without a separator that is neither empty nor the
-- parent directory; its paths are those of the task's directory.
pub begin-Accepted :
    (artifact_id task_id kind : String) (size : ℤ) (mime name : String) (h : UploadHandle)
    → begin artifact_id task_id kind size mime name ≡ ok h
    → Accepted artifact_id task_id kind size mime name h
unfolding begin
begin-Accepted artifact_id task_id kind (negsuc n) mime name h e = absurd (ground arith)
begin-Accepted artifact_id task_id kind (pos bytes) mime name h e =
    elim (Bool-cases (kind == "input" || kind == "result")) [
      | inr k ↦ absurd (let q = rw k at e in cc)
      | inl k ↦
          let (limit, l, w, n, m) =
            begin_within-ok artifact_id task_id kind bytes mime (base_name name)
              (limit_of kind mime) h (rw k at e) in
          record {
            bytes = bytes;
            limit = limit;
            known = known_kind kind k;
            nonneg = refl;
            limited = l;
            within = w;
            flat = rw m (has_slash-last_component "" "" name refl refl);
            not_empty = rw m (λ q. ground (arith, (eq_iff (base_name name) "").1 q));
            not_parent = rw m (λ q. ground (arith, (eq_iff (base_name name) "..").1 q));
            made = m;
          }
    ]
