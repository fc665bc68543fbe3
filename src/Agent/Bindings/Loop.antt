-- ===== src/Agent/Bindings/Loop.antt =====
-- The loop of `build_binding_factory` of agent/worker.py, over rows with unique ids.
use model_courier.Prelude.{
  ◌≡◌, refl, sym, ap, ◌∙◌, eq_refl, inl, inr, String, Bool, true, false, Option, none, some, List,
  [], ◌∷◌, map, All, arith, eq_iff, ◌==◌, ◌&&◌, Bool-cases, Option-cases, if◌then◌else◌,
}
use model_courier.Prelude.Tables.{find}
use model_courier.Prelude.Tables.Laws.{IsKeyed}
use model_courier.Contracts.{CapabilityManifest}
use model_courier.Contracts.Checks.{is_capability}
use model_courier.Contracts.Models.{checked_some, strip_capability}
use model_courier.Worker.Factory.{ProviderFactory, create, register, create-register}
use model_courier.Agent.Models.{ModelBinding}
use model_courier.Agent.Store.{AgentStore, BindingRow, row_key, is_verified}
use model_courier.Agent.Providers.{manifest_of, describe}
use model_courier.Agent.Bindings.{registration_of, is_served, add_binding, add_bindings}

either_way : {A : Type 0} (t : Bool) (x : A) → (if t then x else x) ≡ x
either_way true x = refl
either_way false x = refl

unfoldable or_else : {A : Type 0} → A → Option A → A
or_else otherwise none = otherwise
or_else otherwise (some x) = x

some_injective : {A : Type 0} {x y : A} → some x ≡ some y → x ≡ y
unfolding or_else
some_injective {x = x} e = ap (or_else x) e

module _ (Config : Type 0) (strip : String → String) (decode : String → ModelBinding)
    (digest : ModelBinding → String) where
  -- The id inside a row's JSON is the row's key, and nothing is stripped off it.
  abbrev pub Named : BindingRow → Type 0
  Named r =
      ((decode r.binding_json).binding_id ≡ r.binding_id) × (strip r.binding_id ≡ r.binding_id)

  abbrev pub IsNamed : List BindingRow → Type 0
  IsNamed rows = All Named rows

  -- What a row adds to what the factory makes for its id.
  abbrev pub chosen : AgentStore → Option BindingRow → Option ModelBinding → Option ModelBinding
  chosen s none otherwise = otherwise
  chosen s (some r) otherwise =
      if (decode r.binding_json).enabled
        && is_verified decode digest (decode r.binding_json).binding_id s
      then some (decode r.binding_json)
      else otherwise

  -- A row that is served though its description is not valid.
  pub record Stops (s : AgentStore) (r : BindingRow) : Type 0 where
    pub served :
        ((decode r.binding_json).enabled
          && is_verified decode digest (decode r.binding_json).binding_id s)
        ≡ true
    pub refused : describe strip (decode r.binding_json) ≡ none

  abbrev added :
      AgentStore
      → ModelBinding
      → ProviderFactory ModelBinding Config
      → Option (ProviderFactory ModelBinding Config)
  added s b f = add_binding Config strip decode digest s b f

  describe-id :
      (b : ModelBinding) (c : CapabilityManifest)
      → describe strip b ≡ some c
      → c.capability_id ≡ strip b.binding_id
  unfolding describe
  describe-id b c e =
      ap (λ (m : CapabilityManifest). m.capability_id)
        (sym (checked_some is_capability (strip_capability strip (manifest_of b)) c e).1)

  -- A round that succeeds.
  create-add_binding :
      (s : AgentStore) (b : ModelBinding) (key : String) (f g : ProviderFactory ModelBinding Config)
      (capability_id : String) (config : Config)
      → b.binding_id ≡ key
      → strip key ≡ key
      → f.allowlist ≡ none
      → added s b f ≡ some g
      → (g.allowlist ≡ none)
        × (create ModelBinding Config capability_id config g ≡ (
            if is_served Config strip decode digest s b
            then (if key == capability_id
                then some b
                else create ModelBinding Config capability_id config f)
            else create ModelBinding Config capability_id config f))
  unfolding add_binding register
  create-add_binding s b key f g capability_id config n k e m =
      elim (Bool-cases (is_served Config strip decode digest s b)) [
        | inr t ↦
            let same : f ≡ g = some_injective (rw (add_binding, t) at m) in rw (t, ← same) (e, refl)
        | inl t ↦ elim (Option-cases (describe strip b)) [
          | inl d ↦ absurd (let h = rw (add_binding, t, d) at m in cc)
          | inr (c, d) ↦
              let same : register ModelBinding Config (registration_of Config strip b c) f ≡ g =
                some_injective (rw (add_binding, t, d) at m) in
              let id : c.capability_id ≡ key = describe-id b c d ∙ ap strip n ∙ k in
              rw (t, ← same)
                (
                  ground (arith, e),
                  create-register ModelBinding Config (registration_of Config strip b c) f
                        capability_id config
                      ∙ rw (e, id) refl,
                )
        ]
      ]

  add_bindings-cons :
      (s : AgentStore) (b : ModelBinding) (bs : List ModelBinding)
      (f g : ProviderFactory ModelBinding Config)
      → added s b f ≡ some g
      → add_bindings Config strip decode digest s (b ∷ bs) f
        ≡ add_bindings Config strip decode digest s bs g
  unfolding add_bindings
  add_bindings-cons s b bs f g e = rw (e, add_bindings) refl

  add_bindings-stop :
      (s : AgentStore) (b : ModelBinding) (bs : List ModelBinding)
      (f : ProviderFactory ModelBinding Config)
      → added s b f ≡ none
      → add_bindings Config strip decode digest s (b ∷ bs) f ≡ none
  unfolding add_bindings
  add_bindings-stop s b bs f e = rw (e, add_bindings) refl

  pub create-add_bindings :
      (s : AgentStore) (capability_id : String) (config : Config) (rows : List BindingRow)
      (f g : ProviderFactory ModelBinding Config)
      → IsKeyed row_key rows
      → IsNamed rows
      → f.allowlist ≡ none
      → add_bindings Config strip decode digest s (map (λ r. decode r.binding_json) rows) f ≡ some g
      → create ModelBinding Config capability_id config g
        ≡ chosen s
            (find row_key capability_id rows)
            (create ModelBinding Config capability_id config f)
  unfolding add_bindings find
  create-add_bindings s capability_id config [] f g k n e m =
      ap (create ModelBinding Config capability_id config) (sym (some_injective m))
  create-add_bindings s capability_id config (r ∷ rows) f g k n e m =
      let b : ModelBinding = decode r.binding_json in
      elim (Option-cases (added s b f)) [
        | inl fails ↦ absurd (let h = sym (add_bindings-stop s b _ f fails) ∙ m in cc)
        | inr (h, works) ↦
            let (unlisted, made) =
              create-add_binding s b r.binding_id f h capability_id config n.0.0 n.0.1 e works in
            create-add_bindings s capability_id config rows h g k.1 n.1 unlisted
              (sym (add_bindings-cons s b _ f h works) ∙ m)
            ∙ rw made (elim (Bool-cases (r.binding_id == capability_id)) [
              | inl t ↦
                  let same : r.binding_id ≡ capability_id =
                    (eq_iff r.binding_id capability_id).0 t in
                  let last : find row_key capability_id rows ≡ none = rw same at k.0 in
                  rw (t, last) refl
              | inr t ↦ rw t (
                  ap (chosen s (find row_key capability_id rows)) (
                    either_way (is_served Config strip decode digest s b)
                      (create ModelBinding Config capability_id config f)))
            ])
      ]

  added-Stops :
      (s : AgentStore) (r : BindingRow) (f : ProviderFactory ModelBinding Config)
      → added s (decode r.binding_json) f ≡ none
      → Stops s r
  unfolding add_binding
  added-Stops s r f e =
      elim (Bool-cases (is_served Config strip decode digest s (decode r.binding_json))) [
        | inr t ↦ absurd (let h = rw (add_binding, t) at e in cc)
        | inl t ↦ elim (Option-cases (describe strip (decode r.binding_json))) [
          | inl d ↦ record { served = t; refused = d }
          | inr (c, d) ↦ absurd (let h = rw (add_binding, t, d) at e in cc)
        ]
      ]

  Stops-added :
      (s : AgentStore) (r : BindingRow) (f : ProviderFactory ModelBinding Config)
      → Stops s r
      → added s (decode r.binding_json) f ≡ none
  unfolding add_binding
  Stops-added s r f h = let t = h.served in let d = h.refused in rw (add_binding, t, d) refl

  -- The loop is left by the first row that stops it.
  pub add_bindings-Stops :
      (s : AgentStore) (rows : List BindingRow) (f : ProviderFactory ModelBinding Config)
      → IsKeyed row_key rows
      → add_bindings Config strip decode digest s (map (λ r. decode r.binding_json) rows) f ≡ none
      → (r : BindingRow) × (find row_key r.binding_id rows ≡ some r) × Stops s r
  unfolding add_bindings find
  add_bindings-Stops s [] f k m = absurd (ground arith)
  add_bindings-Stops s (x ∷ rows) f k m = elim (Option-cases (added s (decode x.binding_json) f)) [
    | inl fails ↦ (x, rw (eq_refl x.binding_id) refl, added-Stops s x f fails)
    | inr (h, works) ↦
        let (r, found, stops) =
          add_bindings-Stops s rows h k.1
            (sym (add_bindings-cons s (decode x.binding_json) _ f h works) ∙ m) in
        elim (Bool-cases (x.binding_id == r.binding_id)) [
          | inl t ↦ absurd (
              let same : x.binding_id ≡ r.binding_id = (eq_iff x.binding_id r.binding_id).0 t in
              let free : find row_key r.binding_id rows ≡ none = rw same at k.0 in cc)
          | inr t ↦ (r, rw (t, find) found, stops)
        ]
  ]

  pub Stops-add_bindings :
      (s : AgentStore) (j : String) (rows : List BindingRow) (r : BindingRow)
      (f : ProviderFactory ModelBinding Config)
      → find row_key j rows ≡ some r
      → Stops s r
      → add_bindings Config strip decode digest s (map (λ x. decode x.binding_json) rows) f ≡ none
  unfolding find
  Stops-add_bindings s j [] r f e h = absurd (ground arith)
  Stops-add_bindings s j (x ∷ rows) r f e h =
      elim (Option-cases (added s (decode x.binding_json) f)) [
        | inl fails ↦ add_bindings-stop s (decode x.binding_json) _ f fails
        | inr (g, works) ↦ elim (Bool-cases (x.binding_id == j)) [
          | inl t ↦
              let same : x ≡ r = ground (arith, rw t at e) in
              absurd (let stopped = Stops-added s r f h in let here = rw same at works in cc)
          | inr t ↦
              add_bindings-cons s (decode x.binding_json) _ f g works
              ∙ Stops-add_bindings s j rows r g (rw t at e) h
        ]
      ]
