-- ===== src/Witnesses/Lives.antt =====
-- The life of an entry at concrete panels: forms, setup, polls and commands.
use homeassistant_2gig_gc.Prelude.{
  ◌≡◌, refl, true, false, none, some, List, [], ◌∷◌, Text, codes, text_Eq, text_eq, Dict, get,
  contains, IsDistinct, All, pos, ends_with, int_text,
}
use homeassistant_2gig_gc.Python.Effects.{ok, raised, Ensures, map_result}
use homeassistant_2gig_gc.Python.Json.{Json, int, str, get_field, str_of}
use homeassistant_2gig_gc.Pygc3.Models.{Zone, panel_status, zone}
use homeassistant_2gig_gc.Gc3.Const.{ConfigEntry}
use homeassistant_2gig_gc.Gc3.Coordinator.{update_data, issue_id, new_coordinator}
use homeassistant_2gig_gc.Gc3.Coordinator.Streaks.{is_lost}
use homeassistant_2gig_gc.Gc3.Coordinator.Registry.{stands_from}
use homeassistant_2gig_gc.Gc3.Coordinator.Outages.{updates}
use homeassistant_2gig_gc.Gc3.Coordinator.Reloads.{reload-leaves_issue}
use homeassistant_2gig_gc.Gc3.Setup.{setup_coordinator, Runtime, FirstRefresh, async_setup_entry}
use homeassistant_2gig_gc.Gc3.Setup.Ready.{IsFirstRefresh, SetUp, async_setup_entry-SetUp}
use homeassistant_2gig_gc.Gc3.ConfigFlow.{async_step_user}
use homeassistant_2gig_gc.Gc3.ConfigFlow.Schemas.{Conforms, Fits, user_schema, reauth_schema}
use homeassistant_2gig_gc.Gc3.ConfigFlow.Typing.{
  RaisesAttribute, user-RaisesAttribute, Succeeds, setup-Succeeds,
}
use homeassistant_2gig_gc.Gc3.ConfigFlow.Stored.{reauth, submit, GivesFit, submit-GivesFit}
use homeassistant_2gig_gc.Gc3.Platforms.{setup_platforms, unique_ids}
use homeassistant_2gig_gc.Gc3.Platforms.UniqueIds.{live_ids-IsDistinct}
use homeassistant_2gig_gc.Gc3.BinarySensor.Arrivals.{listens}
use homeassistant_2gig_gc.Gc3.BinarySensor.Entities
use homeassistant_2gig_gc.Pygc3.Client.{status, request, zones, without_console, new_client}
use homeassistant_2gig_gc.Witnesses.Fixtures.{
  some_entry, armed_env, closed_env, some_world, some_coordinator, front_door, two_zones, a_status,
}

-- The front door is heard in every poll after the reload.
abbrev heard_polls : List (List Zone)
heard_polls = two_zones ∷ (front_door ∷ []) ∷ [] ∷ []

heard_polls-heard : All (λ zones. is_lost zones (codes "1") ≡ false) heard_polls
unfolding text_eq
heard_polls-heard = (refl, (refl, (refl, tt)))

reload-leaves_issue_example :
    stands_from true
      (updates
        (codes "e")
        (new_coordinator some_entry some_world (int (pos 3))).supervision
        heard_polls).issues
      (issue_id (codes "e") (codes "1"))
    ≡ true
reload-leaves_issue_example =
    reload-leaves_issue some_entry some_world (int (pos 3)) (codes "1") heard_polls
      heard_polls-heard

abbrev storing : FirstRefresh
storing (ok d, c) = (ok tt, record c { last = some d })
storing (raised e, c) = (raised e, c)

storing-IsFirstRefresh : IsFirstRefresh storing
storing-IsFirstRefresh = record { stores = λ d c. refl; raises = λ e c. (e, refl) }

abbrev full_input : Dict Text Json
full_input =
    (codes "host", str (codes "Panel"))
    ∷ (codes "api_key", str (codes "k"))
    ∷ (codes "pairing_key", str (codes "p"))
    ∷ (codes "disarm_pin", str [])
    ∷ (codes "port", int (pos 3000))
    ∷ (codes "partition", int (pos 1))
    ∷ []

abbrev full_entry : ConfigEntry
full_entry = record { entry_id = codes "e"; stored = full_input; options = [] }

abbrev at_start : Runtime
at_start = record { coordinator = none; calls = [] }

async_setup_entry-SetUp_example :
    SetUp armed_env at_start
      (async_setup_entry armed_env storing 7 full_entry some_world at_start).0
      (async_setup_entry armed_env storing 7 full_entry some_world at_start).1
async_setup_entry-SetUp_example =
    async_setup_entry-SetUp armed_env storing storing-IsFirstRefresh 7 full_entry some_world
      at_start

-- A panel that refuses the credentials leaves no trace of the entry.
setup_refused : (async_setup_entry closed_env storing 7 full_entry some_world at_start).1 ≡ at_start
unfolding async_setup_entry get text_eq update_data status request
setup_refused = refl

setup_done : (async_setup_entry armed_env storing 7 full_entry some_world at_start).0 ≡ ok true
unfolding async_setup_entry get text_eq update_data status request ends_with new_coordinator
    new_client str_of int_text panel_status zones map_result zone get_field without_console
setup_done = refl

full_input-Fits : Fits user_schema full_input
unfolding get text_eq
full_input-Fits = (
  (_, refl, tt),
  ((_, refl, tt), ((_, refl, tt), ((_, refl, tt), ((_, refl, tt), ((_, refl, tt), tt))))),
)

full_input-Conforms : Conforms user_schema full_input
unfolding contains text_eq
full_input-Conforms = record {
  fits = full_input-Fits;
  distinct = (refl, (refl, (refl, (refl, (refl, (refl, tt))))));
  known = λ k h. h;
}

user-RaisesAttribute_example :
    RaisesAttribute (async_step_user closed_env 7 (λ t. none) (some full_input) some_world).0
user-RaisesAttribute_example =
    user-RaisesAttribute closed_env 7 (λ t. none) full_input some_world full_input-Conforms

full_entry_set_up : Succeeds (setup_coordinator (λ v. []) 7 full_entry some_world)
full_entry_set_up = setup-Succeeds (λ v. []) 7 full_entry some_world full_input-Fits

abbrev new_keys : Dict Text Json
new_keys = (codes "api_key", str (codes "k2")) ∷ (codes "pairing_key", str (codes "p2")) ∷ []

new_keys-Conforms : Conforms reauth_schema new_keys
unfolding contains get text_eq
new_keys-Conforms = record {
  fits = ((_, refl, tt), ((_, refl, tt), tt));
  distinct = (refl, (refl, tt));
  known = λ k h. h;
}

submit-GivesFit_example :
    Ensures GivesFit
      (submit armed_env 7 (λ t. none) (codes "panel") full_input reauth new_keys some_world).0
submit-GivesFit_example =
    submit-GivesFit armed_env 7 (λ t. none) (codes "panel") full_input reauth new_keys some_world
      full_input-Fits new_keys-Conforms

live_ids-IsDistinct_example :
    let c = Entities.polled a_status two_zones some_coordinator in
    let e = setup_platforms (λ t. none) c in
    IsDistinct (
      unique_ids c (record e {
        zone_sensors =
            listens (λ t. none) some_coordinator e.zone_sensors ((a_status, front_door ∷ []) ∷ []);
      }))
live_ids-IsDistinct_example =
    live_ids-IsDistinct (λ t. none) some_coordinator a_status two_zones
      ((a_status, front_door ∷ []) ∷ [])
