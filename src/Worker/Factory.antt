-- ===== src/Worker/Factory.antt =====
-- worker/factory.py: the registry of providers. A provider and its configuration are types of the
-- caller's; `registrations` is the dictionary, in the order in which its keys came.
use model_courier.Prelude.{
  ◌≡◌, refl, sym, ap, subst, ◌∙◌, inl, inr, String, Bool, true, false, Option, none, some, List, [],
  ◌∷◌, map, contains, arith, eq_iff, ◌==◌, Bool-cases, Option-cases, if◌then◌else◌,
}
use model_courier.Contracts.{CapabilityManifest}

module _ (Provider Config : Type 0) where
  pub record ProviderRegistration : Type 0 where
    pub capability : CapabilityManifest
    pub factory : Config → Provider

  pub record ProviderFactory : Type 0 where
    pub allowlist : Option (List String)
    pub registrations : List (String × ProviderRegistration)

  -- `self._registrations.get(key)` and `self._registrations[key] = value`
  unfoldable pub lookup :
      String → List (String × ProviderRegistration) → Option ProviderRegistration
  lookup key [] = none
  lookup key ((k, v) ∷ rest) = if k == key then some v else lookup key rest

  unfoldable pub assign :
      String
      → ProviderRegistration
      → List (String × ProviderRegistration)
      → List (String × ProviderRegistration)
  assign key value [] = (key, value) ∷ []
  assign key value ((k, v) ∷ rest) =
      if k == key then (k, value) ∷ rest else (k, v) ∷ assign key value rest

  -- `self.allowlist is not None and capability_id not in self.allowlist`, turned round
  abbrev pub allows : Option (List String) → String → Bool
  allows none capability_id = true
  allows (some allowed) capability_id = contains allowed capability_id

  unfoldable pub register : ProviderRegistration → ProviderFactory → ProviderFactory
  register r f =
      if allows f.allowlist r.capability.capability_id
      then record f { registrations = assign r.capability.capability_id r f.registrations }
      else f

  -- What an entry point loads: a registration, or something else, at which `discover` raises.
  unfoldable pub discover :
      List (Option ProviderRegistration) → ProviderFactory → Bool × ProviderFactory
  discover [] f = (true, f)
  discover (none ∷ items) f = (false, f)
  discover (some r ∷ items) f = discover items (register r f)

  unfoldable pub capabilities : ProviderFactory → List CapabilityManifest
  capabilities f = map (λ (e : String × ProviderRegistration). e.1.capability) f.registrations

  -- `none` is the KeyError of a capability that is not registered.
  unfoldable pub create : String → Config → ProviderFactory → Option Provider
  create capability_id config f = elim (lookup capability_id f.registrations) [
    | none ↦ none
    | some r ↦ some (r.factory config)
  ]

  lookup-assign :
      (key other : String) (v : ProviderRegistration) (l : List (String × ProviderRegistration))
      → lookup other (assign key v l) ≡ (if key == other then some v else lookup other l)
  unfolding lookup assign
  lookup-assign key other v [] = refl
  lookup-assign key other v ((k, w) ∷ rest) =
      ground (arith, eq_iff key other, eq_iff k key, eq_iff k other, lookup-assign key other v rest)

  -- A registration that the allowlist admits decides what its capability creates from then on, and
  -- nothing else; one that it does not admit changes nothing.
  pub create-register :
      (r : ProviderRegistration) (f : ProviderFactory) (capability_id : String) (config : Config)
      → create capability_id config (register r f) ≡ (
          if allows f.allowlist r.capability.capability_id
          then (if r.capability.capability_id == capability_id
              then some (r.factory config)
              else create capability_id config f)
          else create capability_id config f)
  unfolding create register
  create-register r f capability_id config =
      ground (arith, lookup-assign r.capability.capability_id capability_id r f.registrations)

  -- Every key is the id of its registration's capability, and the allowlist admits it.
  abbrev pub IsListed : Option (List String) → List (String × ProviderRegistration) → Type 0
  IsListed allowed [] = Unit
  IsListed allowed ((k, v) ∷ rest) =
      (k ≡ v.capability.capability_id) × (allows allowed k ≡ true) × IsListed allowed rest

  assign-IsListed :
      (allowed : Option (List String)) (key : String) (v : ProviderRegistration)
      (l : List (String × ProviderRegistration))
      → key ≡ v.capability.capability_id
      → allows allowed key ≡ true
      → IsListed allowed l
      → IsListed allowed (assign key v l)
  unfolding assign
  assign-IsListed allowed key v [] k a h = (k, a, tt)
  assign-IsListed allowed key v ((j, w) ∷ rest) k a h = elim (Bool-cases (j == key)) [
    | inl e ↦ rw e (let same : j ≡ key = (eq_iff j key).0 e in rw same (k, a, h.2))
    | inr n ↦ rw n (h.0, h.1, assign-IsListed allowed key v rest k a h.2)
  ]

  register-IsListed :
      (r : ProviderRegistration) (f : ProviderFactory)
      → IsListed f.allowlist f.registrations
      → IsListed f.allowlist (register r f).registrations × ((register r f).allowlist ≡ f.allowlist)
  unfolding register
  register-IsListed r f h = elim (Bool-cases (allows f.allowlist r.capability.capability_id)) [
    | inl a ↦
        rw a
          (assign-IsListed f.allowlist r.capability.capability_id r f.registrations refl a h, refl)
    | inr n ↦ rw n (h, refl)
  ]

  discover-IsListed :
      (items : List (Option ProviderRegistration)) (f : ProviderFactory)
      → IsListed f.allowlist f.registrations
      → IsListed f.allowlist (discover items f).1.registrations
  unfolding discover
  discover-IsListed [] f h = h
  discover-IsListed (none ∷ items) f h = h
  discover-IsListed (some r ∷ items) f h =
      let (listed, same) = register-IsListed r f h in
      subst (λ a. IsListed a (discover items (register r f)).1.registrations) same
        (discover-IsListed items (register r f)
          (subst (λ a. IsListed a (register r f).registrations) (sym same) listed))

  lookup-allows :
      (allowed : Option (List String)) (key : String) (l : List (String × ProviderRegistration))
      (r : ProviderRegistration)
      → IsListed allowed l
      → lookup key l ≡ some r
      → (allows allowed key ≡ true) × (r.capability.capability_id ≡ key)
  unfolding lookup
  lookup-allows allowed key [] r h e = absurd (ground arith)
  lookup-allows allowed key ((k, v) ∷ rest) r h e = elim (Bool-cases (k == key)) [
    | inl t ↦
        let same : k ≡ key = (eq_iff k key).0 t in
        let here : v ≡ r = ground arith in
        (
          rw same at h.1,
          ap (λ (x : ProviderRegistration). x.capability.capability_id) (sym here) ∙ sym h.0 ∙ same,
        )
    | inr t ↦ lookup-allows allowed key rest r h.2 (rw t at e)
  ]

  -- A factory that has only discovered its providers creates none that its allowlist does not
  -- admit.
  pub create-discover :
      (allowed : Option (List String)) (items : List (Option ProviderRegistration))
      (capability_id : String) (config : Config) (p : Provider)
      → create capability_id config
          (discover items (record { allowlist = allowed; registrations = [] })).1
        ≡ some p
      → allows allowed capability_id ≡ true
  unfolding create
  create-discover allowed items capability_id config p e =
      let f = (discover items (record { allowlist = allowed; registrations = [] })).1 in
      elim (Option-cases (lookup capability_id f.registrations)) [
        | inl n ↦ absurd (let h = rw (n, create) at e in cc)
        | inr (r, n) ↦
            (lookup-allows allowed capability_id f.registrations r
              (discover-IsListed items (record { allowlist = allowed; registrations = [] }) tt) n).0
      ]
