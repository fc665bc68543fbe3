-- ===== src/Agent/Api/Saving.antt =====
-- About `save_model` of agent/api.py and the factory that the worker makes of the store after it.
use model_courier.Prelude.{ℕ, String}
use model_courier.Agent.Models.{ModelBinding}
use model_courier.Agent.Store.{BindingRow}
use model_courier.Agent.Bindings.Loop

module _ (Config : Type 0) (strip : String → String) (encode : ModelBinding → String)
    (lower : String → String) (show : ℕ → String) (decode : String → ModelBinding)
    (digest : ModelBinding → String) where
  abbrev Named : BindingRow → Type 0
  Named r = Loop.Named Config strip decode digest r
