-- ===== src/Witnesses/Interleavings.antt =====
-- A night arm between the two requests of a poll.
use homeassistant_2gig_gc.Prelude.{
  ◌≡◌, ◌≢◌, refl, true, false, some, List, [], codes, text_Eq, contains, IsDistinct, All, any,
  ends_with, strip, if◌then◌else◌, lower, text_eq,
}
use homeassistant_2gig_gc.Python.Effects.{ok, raised, map_result}
use homeassistant_2gig_gc.Pygc3.Models.{Zone, PanelStatus, panel_status, zone}
use homeassistant_2gig_gc.Pygc3.Client.{Env, zones, without_console, status, request, arm}
use homeassistant_2gig_gc.Gc3.Coordinator.{
  Coordinator, Gc3Data, armed_night, armed_home, alarm_state, is_idle, zone_ids, absorb, new_data,
  note_arm, map_alarm_state,
}
use homeassistant_2gig_gc.Gc3.Coordinator.Registry.{Mirrors}
use homeassistant_2gig_gc.Gc3.Coordinator.Monitor.{monitor_of, watch_all}
use homeassistant_2gig_gc.Gc3.AlarmControlPanel.Commands.{arm_night, perform}
use homeassistant_2gig_gc.Gc3.AlarmControlPanel.Night.{here, stored}
use homeassistant_2gig_gc.Gc3.Lifetime.{zones_polled}
use homeassistant_2gig_gc.Gc3.Interleaving.{
  begin_poll, end_poll, keep_snapshot, no_poll, waiting, Run, start, begins, ends, serves, night_by,
}
use homeassistant_2gig_gc.Gc3.Interleaving.Races.{
  Run_refines, armed_night-by_run, stale_poll-ends_night,
}
use homeassistant_2gig_gc.Python.Json.{get_field, str_of}
use homeassistant_2gig_gc.Gc3.AlarmControlPanel.{command}
use homeassistant_2gig_gc.Witnesses.Fixtures.{some_coordinator, answer, status_json, zones_json}

-- A panel that is disarmed until it is told to arm, and then armed in stay mode.
abbrev told_env : Env
told_env = record {
  repr = λ v. [];
  panel = λ before r.
      if ends_with r.url (codes "/zones")
      then answer 200 zones_json
      else if any (λ q. ends_with q.url (codes "/arm")) before
      then answer 200 (status_json (codes "ARMED") true)
      else answer 200 (status_json (codes "DISARMED") false);
}

abbrev asked : Coordinator
asked = (begin_poll told_env some_coordinator).1

abbrev armed : Coordinator
armed = (perform told_env arm_night asked).1

abbrev idle_status : PanelStatus
idle_status = record {
  arm_state = codes "disarmed";
  is_armed_stay = false;
  raw = status_json (codes "DISARMED") false;
}

abbrev first_zones : List (List Zone)
first_zones = zones_polled (end_poll told_env idle_status armed).0 []

abbrev polled_late : Coordinator
polled_late =
    keep_snapshot (end_poll told_env idle_status armed).0 (end_poll told_env idle_status armed).1

-- The next poll finds the panel armed in stay mode.
abbrev found : Gc3Data
found = record {
  status = record {
    arm_state = codes "armed";
    is_armed_stay = true;
    raw = status_json (codes "ARMED") true;
  };
  zones = [];
  by_id = [];
}

abbrev late_data : Gc3Data
late_data = elim (end_poll told_env idle_status armed).0 [ ok d ↦ d | raised e ↦ found ]

begun : (begin_poll told_env some_coordinator).0 ≡ ok idle_status
unfolding begin_poll status request ends_with panel_status lower get_field str_of text_eq
begun = refl

waiting_run : Run told_env some_coordinator [] (waiting idle_status) armed
unfolding begin_poll status request ends_with panel_status lower get_field str_of text_eq
waiting_run = serves (begins start) arm_night

late_run : Run told_env some_coordinator first_zones no_poll polled_late
late_run = ends waiting_run

some_coordinator-Mirrors : Mirrors (codes "e") some_coordinator.supervision
unfolding contains
some_coordinator-Mirrors i = refl

first_zones-IsDistinct : All (λ zones. IsDistinct (zone_ids zones)) first_zones
unfolding contains begin_poll end_poll status zones request ends_with perform command arm map_result
    zone get_field text_eq without_console str_of lower strip panel_status
first_zones-IsDistinct = ((refl, (refl, tt)), tt)

Run_refines_example :
    monitor_of (codes "e") polled_late.supervision
    ≡ watch_all (monitor_of (codes "e") some_coordinator.supervision) first_zones
Run_refines_example = Run_refines late_run some_coordinator-Mirrors first_zones-IsDistinct

armed_night-by_run_example : armed.armed_night ≡ night_by waiting_run
armed_night-by_run_example = armed_night-by_run waiting_run

-- The night arm succeeded.
armed_flag : armed.armed_night ≡ true
unfolding perform command arm request ends_with begin_poll status
armed_flag = refl

abbrev later : Coordinator
later = record polled_late { last = some found }

ended_well : (end_poll told_env idle_status armed).0 ≡ ok late_data
unfolding contains begin_poll end_poll status zones request ends_with perform command arm map_result
    zone get_field text_eq without_console str_of lower strip panel_status absorb new_data
ended_well = refl

found_idle : is_idle idle_status ≡ true
unfolding contains text_eq
found_idle = refl

stale_poll-ends_night_example : alarm_state later ≢ some armed_night
stale_poll-ends_night_example =
    stale_poll-ends_night late_data waiting_run found_idle ended_well (stored here found)

-- The panel is armed for the night, and shows as armed at home.
shown_home : alarm_state later ≡ some armed_home
unfolding contains begin_poll end_poll status zones request ends_with perform command arm map_result
    zone get_field text_eq without_console str_of lower strip panel_status alarm_state absorb
    new_data note_arm map_alarm_state
shown_home = refl
