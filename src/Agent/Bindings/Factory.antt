-- ===== src/Agent/Bindings/Factory.antt =====
-- About `build_binding_factory` of agent/worker.py: which bindings the worker's factory makes.
use model_courier.Prelude.{
  ◌≡◌, refl, sym, ◌∙◌, ◌⊎◌, inl, inr, String, Option, none, some, Option-cases,
}
use model_courier.Prelude.Tables.Laws.{IsKeyed}
use model_courier.Worker.Factory.{ProviderFactory, create, lookup}
use model_courier.Agent.Models.{ModelBinding}
use model_courier.Agent.Store.{
  AgentStore, BindingRow, row_key, find_binding, list_bindings, order_by_id,
}
use model_courier.Agent.Bindings.Ordering.{find-order_by_id, order_by_id-IsKeyed, order_by_id-All}
use model_courier.Agent.Bindings.{no_providers, build_binding_factory}
use model_courier.Agent.Bindings.Loop.{
  IsNamed, chosen, Stops, create-add_bindings, add_bindings-Stops, Stops-add_bindings,
}

module _ (Config : Type 0) (strip : String → String) (decode : String → ModelBinding)
    (digest : ModelBinding → String) where
  abbrev built : AgentStore → Option (ProviderFactory ModelBinding Config)
  built s = build_binding_factory Config strip decode digest s

  pub create-built :
      (s : AgentStore) (f : ProviderFactory ModelBinding Config) (capability_id : String)
      (config : Config)
      → IsKeyed row_key s.bindings
      → IsNamed Config strip decode digest s.bindings
      → built s ≡ some f
      → create ModelBinding Config capability_id config f
        ≡ chosen Config strip decode digest s (find_binding capability_id s) none
  unfolding build_binding_factory list_bindings create lookup
  create-built s f capability_id config k n e =
      create-add_bindings Config strip decode digest s capability_id config (order_by_id s.bindings)
        (no_providers Config strip) f (order_by_id-IsKeyed s.bindings k)
        (order_by_id-All _ s.bindings n) refl e
      ∙ rw (find-order_by_id capability_id s.bindings k) refl

  pub built-Stops :
      (s : AgentStore)
      → IsKeyed row_key s.bindings
      → built s ≡ none
      → (r : BindingRow) × (find_binding r.binding_id s ≡ some r)
        × Stops Config strip decode digest s r
  unfolding build_binding_factory list_bindings
  built-Stops s k e =
      let (r, found, stops) =
        add_bindings-Stops Config strip decode digest s (order_by_id s.bindings)
          (no_providers Config strip) (order_by_id-IsKeyed s.bindings k) e in
      (r, sym (find-order_by_id r.binding_id s.bindings k) ∙ found, stops)

  pub Stops-built :
      (s : AgentStore) (j : String) (r : BindingRow)
      → IsKeyed row_key s.bindings
      → find_binding j s ≡ some r
      → Stops Config strip decode digest s r
      → built s ≡ none
  unfolding build_binding_factory list_bindings
  Stops-built s j r k found stops =
      Stops-add_bindings Config strip decode digest s j (order_by_id s.bindings) r
        (no_providers Config strip) (find-order_by_id j s.bindings k ∙ found) stops

  -- On a store with unique ids whose rows carry their own ids, with nothing to strip off them,
  -- either the factory of the worker is made, and makes for every id the stored binding if that is
  -- enabled and verified, and nothing otherwise; or a stored binding is enabled and verified whose
  -- description is not valid, and no factory is made.
  pub create-build_binding_factory :
      (s : AgentStore) (capability_id : String) (config : Config)
      → IsKeyed row_key s.bindings
      → IsNamed Config strip decode digest s.bindings
      → ((f : ProviderFactory ModelBinding Config) × (build_binding_factory Config strip decode
              digest s
            ≡ some f)
          × (create ModelBinding Config capability_id config f
              ≡ chosen Config strip decode digest s (find_binding capability_id s) none))
        ⊎ ((build_binding_factory Config strip decode digest s ≡ none)
            × (r : BindingRow) × (find_binding r.binding_id s ≡ some r)
            × Stops Config strip decode digest s r)
  create-build_binding_factory s capability_id config k n = elim (Option-cases (built s)) [
    | inl e ↦ let (r, found, stops) = built-Stops s k e in inr (e, r, found, stops)
    | inr (f, e) ↦ inl (f, e, create-built s f capability_id config k n e)
  ]
