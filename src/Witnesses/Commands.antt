-- ===== src/Witnesses/Commands.antt =====
-- The commands of the alarm panel at concrete inputs.
use homeassistant_2gig_gc.Prelude.{
  ◌≡◌, refl, ◌≢◌, true, some, codes, ends_with, text_eq, contains, lower,
}
use homeassistant_2gig_gc.Python.Effects.{Result, ok, raised, map_result}
use homeassistant_2gig_gc.Python.Json.{str, get_field, str_of}
use homeassistant_2gig_gc.Gc3.Coordinator.{
  Coordinator, Gc3Data, alarm_state, armed_night, update_data, fetch, new_data, is_idle,
}
use homeassistant_2gig_gc.Pygc3.Client
use homeassistant_2gig_gc.Pygc3.Client.{request}
use homeassistant_2gig_gc.Gc3.AlarmControlPanel.{command}
use homeassistant_2gig_gc.Gc3.AlarmControlPanel.Commands.{arm_night, disarm, perform}
use homeassistant_2gig_gc.Gc3.AlarmControlPanel.Wire.{Sends, perform-Sends}
use homeassistant_2gig_gc.Gc3.AlarmControlPanel.Night.{
  here, polled, stored, StaysArmed, IsArmedStay, stay_shows, idle_ends_night,
}
use homeassistant_2gig_gc.Pygc3.Models.{panel_status, zone}
use homeassistant_2gig_gc.Witnesses.Fixtures.{
  armed_env, idle_env, some_coordinator, a_status, two_zones,
}

perform-Sends_example : Sends armed_env (disarm (str (codes "99"))) some_coordinator
perform-Sends_example = perform-Sends armed_env (disarm (str (codes "99"))) some_coordinator

night_done : (perform armed_env arm_night some_coordinator).0 ≡ ok tt
unfolding perform command Client.arm request ends_with
night_done = refl

abbrev after_night : Coordinator
after_night = (perform armed_env arm_night some_coordinator).1

armed_poll : StaysArmed (update_data armed_env after_night).0
unfolding perform update_data fetch Client.status Client.zones request ends_with command Client.arm
    panel_status map_result zone get_field text_eq Client.without_console str_of contains lower
armed_poll = refl

abbrev shown_data : Gc3Data
shown_data = new_data a_status two_zones

stay_data : IsArmedStay shown_data
unfolding new_data
stay_data = record { armed = refl; stay = refl; quiet = refl }

stay_shows_example :
    alarm_state (record (update_data armed_env after_night).1 { last = some shown_data })
    ≡ some armed_night
stay_shows_example =
    stay_shows armed_env arm_night some_coordinator shown_data night_done
      (stored (polled here armed_poll) shown_data) refl stay_data

abbrev data_of : Result Gc3Data → Gc3Data
data_of (ok d) = d
data_of (raised e) = shown_data

abbrev idle_data : Gc3Data
idle_data = data_of (update_data idle_env some_coordinator).0

idle_polled : (update_data idle_env some_coordinator).0 ≡ ok idle_data
unfolding update_data fetch Client.status Client.zones request ends_with panel_status map_result
    zone get_field text_eq Client.without_console str_of
idle_polled = refl

idle_data-idle : is_idle idle_data.status ≡ true
unfolding update_data fetch Client.status Client.zones request ends_with contains text_eq
    panel_status map_result zone get_field Client.without_console str_of lower
idle_data-idle = refl

idle_ends_night_example :
    alarm_state (record (update_data idle_env (update_data idle_env some_coordinator).1).1 {
      last = some shown_data;
    })
    ≢ some armed_night
idle_ends_night_example =
    idle_ends_night idle_env some_coordinator idle_data idle_polled idle_data-idle
      (stored (polled here tt) shown_data)
