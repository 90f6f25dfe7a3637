-- ===== src/Witnesses/Sensors.antt =====
-- The entities at concrete inputs.
use homeassistant_2gig_gc.Prelude.{
  ◌+◌, ◌≡◌, refl, true, false, Option, none, some, List, [], ◌∷◌, Text, codes, text_Eq, text_eq,
  contains, lower, int_text, is_digit, parse_digits, ends_with, get, put, is_in,
}
use homeassistant_2gig_gc.Python.Effects.{Result, ok, raised, key_error, map_result}
use homeassistant_2gig_gc.Pygc3.Models.{panel_status, zone, as_text, PanelStatus, Zone}
use homeassistant_2gig_gc.Gc3.Coordinator.{Coordinator, Gc3Data, update_data, new_data}
use homeassistant_2gig_gc.Gc3.Entity.{device_info}
use homeassistant_2gig_gc.Gc3.Setup.{item}
use homeassistant_2gig_gc.Gc3.BinarySensor.{
  no_zones, ZoneSensor, new_zone_sensor, HealthDescription, problem, zone_device_class,
  is_transient_zone, sort_ids, key_leb, sort_key, sensor_name, zone_unique_id,
}
use homeassistant_2gig_gc.Gc3.BinarySensor.Entities.{polled, last_zone}
use homeassistant_2gig_gc.Gc3.BinarySensor.Built.{Builds, name_of, new_zone_sensor-Builds}
use homeassistant_2gig_gc.Gc3.BinarySensor.Arrivals.{listens, times_added, arrivals, added-listens}
use homeassistant_2gig_gc.Pygc3.Client.{status, request, zones, without_console}
use homeassistant_2gig_gc.Python.Json.{get_field, str_of}
use homeassistant_2gig_gc.Witnesses.Fixtures.{
  armed_env, some_coordinator, a_status, two_zones, front_door,
}

abbrev three_ids : List Text
three_ids = codes "10" ∷ codes "x" ∷ codes "2" ∷ []

three_sorted : sort_ids three_ids ≡ codes "2" ∷ codes "10" ∷ codes "x" ∷ []
unfolding sort_ids key_leb sort_key is_digit parse_digits
three_sorted = refl

abbrev no_registry : Text → Option Text
no_registry t = some t

abbrev shown : Coordinator
shown = polled a_status two_zones some_coordinator

abbrev supervision_lost : HealthDescription
supervision_lost = record {
  key = codes "supervision_lost";
  device_class = problem;
  flag = λ s. s.loss_of_supervision;
}

abbrev door_sensor : ZoneSensor
door_sensor = record {
  device = record {
    identifiers = (codes "gc3", codes "e") ∷ [];
    manufacturer = codes "2GIG";
    model = codes "GC3";
    name = codes "2GIG GC3";
    configuration_url = codes "https://p:3000";
  };
  zone_id = codes "1";
  unique_id = codes "e_zone_1";
  name = homeassistant_2gig_gc.Python.Json.str (codes "Front Door");
  device_class = zone_device_class (codes "Front Door");
  enabled_default = true;
}

door_sensor-made : new_zone_sensor armed_env.repr shown (codes "1") ≡ ok door_sensor
unfolding new_zone_sensor device_info item str_of int_text as_text sensor_name get new_data put
    text_eq zone_unique_id is_transient_zone is_in lower
door_sensor-made = refl

-- Of an entry without a host no sensor is made.
no_host :
    new_zone_sensor armed_env.repr
      (record shown { entry = record some_coordinator.entry { stored = [] } })
      (codes "1")
    ≡ raised key_error
unfolding new_zone_sensor device_info item get
no_host = refl

abbrev data_of : Result Gc3Data → Gc3Data
data_of (ok d) = d
data_of (raised e) = record { status = a_status; zones = []; by_id = [] }

abbrev armed_data : Gc3Data
armed_data = data_of (update_data armed_env some_coordinator).0

armed_polled : (update_data armed_env some_coordinator).0 ≡ ok armed_data
unfolding update_data status request ends_with panel_status zones map_result zone get_field text_eq
    without_console str_of
armed_polled = refl

abbrev hall_shown : Coordinator
hall_shown = record (update_data armed_env some_coordinator).1 { last = some armed_data }

new_zone_sensor-Builds_example :
    Builds hall_shown
      (codes "2")
      (name_of (codes "2") (last_zone none armed_data.zones (codes "2")))
      (new_zone_sensor armed_env.repr hall_shown (codes "2"))
new_zone_sensor-Builds_example =
    new_zone_sensor-Builds armed_env some_coordinator armed_data (codes "2") armed_polled

-- The zones come, one of them goes, and comes back.
abbrev comings : List (PanelStatus × List Zone)
comings = (a_status, two_zones) ∷ (a_status, front_door ∷ []) ∷ (a_status, two_zones) ∷ []

added-listens_example :
    times_added (codes "2") (listens no_registry some_coordinator no_zones comings).added
    ≡ times_added (codes "2") [] + arrivals (codes "2") (contains [] (codes "2")) comings
added-listens_example = added-listens no_registry some_coordinator no_zones comings (codes "2")

added_twice : arrivals (codes "2") false comings ≡ 2
unfolding contains text_eq
added_twice = refl
