-- ===== src/Witnesses/Flows.antt =====
-- The config flow at concrete inputs.
use homeassistant_2gig_gc.Prelude.{
  ◌≡◌, refl, Option, none, some, [], ◌∷◌, Text, codes, Dict, get, text_eq, lower,
}
use homeassistant_2gig_gc.Python.Effects.{ok, Ensures}
use homeassistant_2gig_gc.Python.Json.{Json, str}
use homeassistant_2gig_gc.Gc3.ConfigFlow.{
  unique_id_of, async_step_user, async_step_reconfigure, async_step_reauth_confirm,
}
use homeassistant_2gig_gc.Gc3.ConfigFlow.Steps.{
  Created, Renewed, user-Created, Reconfigured, reconfigure-Reconfigured, reauth-Renewed,
}
use homeassistant_2gig_gc.Pygc3.Models.{as_text}
use homeassistant_2gig_gc.Witnesses.Fixtures.{armed_env, some_world}

abbrev some_input : Dict Text Json
some_input =
    (codes "host", str (codes "Panel"))
    ∷ (codes "api_key", str (codes "k"))
    ∷ (codes "pairing_key", str (codes "p"))
    ∷ []

abbrev new_keys : Dict Text Json
new_keys = (codes "api_key", str (codes "k2")) ∷ (codes "pairing_key", str (codes "p2")) ∷ []

abbrev unclaimed : Text → Option Text
unclaimed t = none

user-Created_example :
    Ensures
      (Created armed_env 7 unclaimed some_input some_world)
      (async_step_user armed_env 7 unclaimed (some some_input) some_world).0
user-Created_example = user-Created armed_env 7 unclaimed some_input some_world

panel-unique_id : unique_id_of some_input ≡ ok (codes "panel")
unfolding unique_id_of get text_eq as_text lower
panel-unique_id = refl

reconfigure-Reconfigured_example :
    Ensures
      (Reconfigured armed_env 7 unclaimed (codes "panel") some_input some_world)
      (async_step_reconfigure armed_env 7 unclaimed (codes "panel") (some some_input) some_world).0
reconfigure-Reconfigured_example =
    reconfigure-Reconfigured armed_env 7 unclaimed (codes "panel") some_input some_world

reauth-Renewed_example :
    Ensures
      (Renewed armed_env 7 some_input new_keys some_world)
      (async_step_reauth_confirm armed_env 7 some_input (some new_keys) some_world).0
reauth-Renewed_example = reauth-Renewed armed_env 7 some_input new_keys some_world
