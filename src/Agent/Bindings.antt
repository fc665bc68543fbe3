-- ===== src/Agent/Bindings.antt =====
-- agent/worker.py: the factory of the bindings that are enabled and verified, and the agent's loop.
pub mod Ordering
pub mod Loop
pub mod Factory
use model_courier.Prelude.{
  String, Bool, true, false, Option, none, some, List, [], ◌∷◌, ◌&&◌, if◌then◌else◌,
}
use model_courier.Contracts.{CapabilityManifest}
use model_courier.Worker.Factory.{ProviderRegistration, ProviderFactory, register}
use model_courier.Worker.Runtime.{World, Request}
use model_courier.Worker.Runtime
use model_courier.Agent.Models.{ModelBinding}
use model_courier.Agent.Store.{AgentStore, list_bindings, is_verified}
use model_courier.Agent.Providers.{describe}

module _ (Config : Type 0) (strip : String → String) where
  -- A `BindingProvider` is its binding.
  abbrev pub registration_of :
      ModelBinding → CapabilityManifest → ProviderRegistration ModelBinding Config
  registration_of b capability = record { capability = capability; factory = λ config. b }

  abbrev pub no_providers : ProviderFactory ModelBinding Config
  no_providers = record { allowlist = none; registrations = [] }

  module _ (decode : String → ModelBinding) (digest : ModelBinding → String) where
    abbrev pub is_served : AgentStore → ModelBinding → Bool
    is_served s b = b.enabled && is_verified decode digest b.binding_id s

    -- A round of the loop of `build_binding_factory`; `none` is what `describe` raises.
    unfoldable pub add_binding :
        AgentStore
        → ModelBinding
        → ProviderFactory ModelBinding Config
        → Option (ProviderFactory ModelBinding Config)
    add_binding s b f =
        if is_served s b
        then elim (describe strip b) [
          | none ↦ none
          | some capability ↦ some (register ModelBinding Config (registration_of b capability) f)
        ]
        else some f

    unfoldable pub add_bindings :
        AgentStore
        → List ModelBinding
        → ProviderFactory ModelBinding Config
        → Option (ProviderFactory ModelBinding Config)
    add_bindings s [] f = some f
    add_bindings s (b ∷ bs) f = elim (add_binding s b f) [
      | none ↦ none
      | some g ↦ add_bindings s bs g
    ]

    unfoldable pub build_binding_factory : AgentStore → Option (ProviderFactory ModelBinding Config)
    build_binding_factory s = add_bindings s (list_bindings decode digest s) no_providers

    -- `AgentWorkerLoop.run_forever`: the factory is made once, when the loop starts, and the loop ends
    -- before its first request if that raises. The lock that it holds for each round is not modelled.
    unfoldable pub run_forever :
        Bool → Config → AgentStore → List (World ModelBinding Config) → Bool × List Request
    run_forever registered config s ws = elim (build_binding_factory s) [
      | none ↦ (false, [])
      | some f ↦ Runtime.run_forever ModelBinding Config registered config f ws
    ]
