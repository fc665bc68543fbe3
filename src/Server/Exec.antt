-- ===== src/Server/Exec.antt =====
-- A call on the database returns a value or raises, and leaves a database. What was committed
-- before a raise stays, so the database comes back beside the error too.
use model_courier.Prelude.{
  String, ◌≡◌, refl, Bool, if◌then◌else◌, Option, none, some, ◌⊎◌, inl, inr,
}

-- The exceptions of repository.py, auth.py, quotas.py and storage.py with their messages, the
-- `sqlite3.IntegrityError` of a refused INSERT, a failed `assert`, and a stream that broke off.
pub data Error : Type 0 where
  not_found conflict lease_conflict authentication quota_exceeded artifact : String → Error
  integrity assertion interrupted invalid : Error

pub data Result {ℓ} (A : Type ℓ) : Type ℓ where
  ok : A → Result A
  err : Error → Result A

abbrev pub Exec {ℓ} : Type ℓ → Type ℓ → Type ℓ
Exec S A = S → Result A × S

module _ {ℓ} {S A : Type ℓ} where
  abbrev pub pure : A → Exec S A
  pure a s = (ok a, s)

  abbrev pub raise : Error → Exec S A
  raise e s = (err e, s)

  abbrev pub lift : (S → Result A) → Exec S A
  lift f s = (f s, s)

abbrev pub or_raise {ℓ} : {A : Type ℓ} → Option A → Error → Result A
or_raise none e = err e
or_raise (some a) e = ok a

-- `if test: raise e`
abbrev pub raise_if {ℓ} : {S : Type ℓ} → Bool → Error → Exec S (Unit {ℓ})
raise_if b e s = (if b then err e else ok tt, s)

abbrev pub modify_state {ℓ} : {S : Type ℓ} → (S → S) → Exec S (Unit {ℓ})
modify_state f s = (ok tt, f s)

abbrev pub continue {ℓ} : {S A B : Type ℓ} → Result A → (A → Exec S B) → Exec S B
continue (ok a) f s = f a s
continue (err e) f s = (err e, s)

infixl 5 ◌>>=◌ ◌>>◌
abbrev pub ◌>>=◌ {ℓ} : {S A B : Type ℓ} → Exec S A → (A → Exec S B) → Exec S B
◌>>=◌ m f s = continue (m s).0 f (m s).1

abbrev pub ◌>>◌ {ℓ} : {S A B : Type ℓ} → Exec S A → Exec S B → Exec S B
m >> k = m >>= λ _. k

pub Result-cases {ℓ} :
    {A : Type ℓ} (r : Result A) → ((a : A) × (r ≡ ok a)) ⊎ ((e : Error) × (r ≡ err e))
Result-cases (ok a) = inl (a, refl)
Result-cases (err e) = inr (e, refl)
