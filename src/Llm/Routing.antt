-- ===== src/Llm/Routing.antt =====
-- brain/llm/routing.py: model steps, the resolved routing policy, and its resolution from the parsed
-- TOML. `Settings` is the dictionary of its fields, each as its text.
use johnny.Prelude.{String, Option, none, some, List, Dict, lookup}
use johnny.Prelude.Exec.{Outcome, returned, raised}

pub record ModelStep : Type 0 where
  pub provider : String
  pub model : String

-- `RoutingConfig.roles`
abbrev pub Roles : Type 0
Roles = Dict (List ModelStep)

pub data RoutingError : Type 0 where
  no_route : String → RoutingError
  unknown_setting : String → RoutingError
  unknown_slot : String → RoutingError
  no_roles : RoutingError
  missing_key : String → RoutingError

abbrev or_default : String → Option (List ModelStep) → Outcome RoutingError (List ModelStep)
or_default role none = raised (no_route role)
or_default role (some steps) = returned steps

abbrev chosen : String → Roles → Option (List ModelStep) → Outcome RoutingError (List ModelStep)
chosen role roles (some steps) = returned steps
chosen role roles none = or_default role (lookup "default" roles)

-- `chain_for`: the role's chain, or else that of `default`
unfoldable pub chain_for : Roles → String → Outcome RoutingError (List ModelStep)
chain_for roles role = chosen role roles (lookup role roles)

-- `slot["provider"]` and `slot["model_setting"]` of one table under `[models]`
pub record Slot : Type 0 where
  pub provider : Option String
  pub model_setting : Option String

abbrev with_model : String → String → Option String → Outcome RoutingError ModelStep
with_model slot_name provider none = raised (unknown_setting slot_name)
with_model slot_name provider (some model) =
    returned (record { provider = provider; model = model })

abbrev resolved :
    Dict String → String → Option String → Option String → Outcome RoutingError ModelStep
resolved settings slot_name none setting = raised (missing_key "provider")
resolved settings slot_name (some provider) none = raised (missing_key "model_setting")
resolved settings slot_name (some provider) (some setting) =
    with_model slot_name provider (lookup setting settings)

unfoldable pub resolve_slot : Dict String → String → Slot → Outcome RoutingError ModelStep
resolve_slot settings slot_name slot = resolved settings slot_name slot.provider slot.model_setting
