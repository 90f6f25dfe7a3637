-- ===== src/Gc3/Platforms.antt =====
-- The entities that the platforms of an entry add: `async_setup_entry` of alarm_control_panel.py,
-- binary_sensor.py and sensor.py under custom_components/gc3, and what the constructors
-- that they call set beside the device information of Entity.
pub mod UniqueIds
use homeassistant_2gig_gc.Prelude.{
  Bool, true, false, not, Option, none, some, List, [], ◌∷◌, ◌++◌, map, Text, codes, if◌then◌else◌,
}
use homeassistant_2gig_gc.Python.Effects.{Result, ok, bind}
use homeassistant_2gig_gc.Python.Json.{Json}
use homeassistant_2gig_gc.Gc3.Coordinator.{Coordinator, AlarmState, alarm_state}
use homeassistant_2gig_gc.Gc3.AlarmControlPanel.{asks_for_code}
use homeassistant_2gig_gc.Gc3.BinarySensor.{
  Platform, no_zones, sync_zones, HealthDescription, health_sensors, health_unique_id,
  affected_zones, DeviceClass, zone_unique_id,
}
use homeassistant_2gig_gc.Gc3.Sensor.{open_zones}

-- `AlarmControlPanelEntityFeature`, as far as it is used, and `CodeFormat.NUMBER`.
pub data Feature : Type 0 where
  can_arm_home can_arm_away can_arm_night : Feature

pub data CodeFormat : Type 0 where
  number : CodeFormat

-- `GC3AlarmPanel`: its attributes
pub record AlarmPanel : Type 0 where
  pub unique_id : Text
  pub code_arm_required : Bool
  pub supported_features : List Feature
  pub code_format : Option CodeFormat

-- `GC3AlarmPanel.__init__` beside what its base class does, with the attributes of the class
unfoldable pub new_alarm_panel : Coordinator → AlarmPanel
new_alarm_panel c = record {
  unique_id = c.entry.entry_id ++ codes "_alarm";
  code_arm_required = false;
  supported_features = can_arm_home ∷ can_arm_away ∷ can_arm_night ∷ [];
  code_format = if asks_for_code c.entry then some number else none;
}

-- `GC3AlarmPanel.alarm_state`
abbrev pub shown_alarm_state : Coordinator → Option AlarmState
shown_alarm_state = alarm_state

-- `OPEN_ZONES`
pub record SensorDescription : Type 0 where
  pub key : Text
  pub unit : Text

abbrev pub open_zones_description : SensorDescription
open_zones_description = record { key = codes "open_zones"; unit = codes "zones" }

-- `GC3OpenZonesSensor.__init__`: the unique id
unfoldable pub open_zones_unique_id : Coordinator → SensorDescription → Text
open_zones_unique_id c d = c.entry.entry_id ++ codes "_" ++ d.key

-- `GC3OpenZonesSensor.extra_state_attributes`
unfoldable pub open_zones_attributes : Coordinator → Result (Text × List Json)
open_zones_attributes c = bind (open_zones c) (λ names. ok (codes "zones", names))

-- `GC3HealthSensor.extra_state_attributes`
unfoldable pub health_attributes : HealthDescription → Coordinator → Text × List Json
health_attributes d c = (codes "zones", affected_zones d c)

-- What the three platforms hand to `async_add_entities` when they are set up, and the state of the
-- listener that `binary_sensor.py` registers with the coordinator.
pub record Entities : Type 0 where
  pub alarm_panels : List AlarmPanel
  pub open_zones_sensors : List SensorDescription
  pub health_entities : List HealthDescription
  pub zone_sensors : Platform

-- What `async_setup_entry` adds for the panel, for the open ways, and for the panel's health.
abbrev pub panel_entities : Coordinator → List AlarmPanel
panel_entities c = new_alarm_panel c ∷ []

abbrev pub sensor_entities : List SensorDescription
sensor_entities = open_zones_description ∷ []

abbrev pub health_sensors_added : List HealthDescription
health_sensors_added = health_sensors

-- The three `async_setup_entry`; `registry` is `async_get_entity_id` of the entity registry.
unfoldable pub setup_platforms : (Text → Option Text) → Coordinator → Entities
unfolding new_alarm_panel
setup_platforms registry c = record {
  alarm_panels = panel_entities c;
  open_zones_sensors = sensor_entities;
  health_entities = health_sensors_added;
  zone_sensors = sync_zones registry c no_zones;
}

-- The unique ids of all entities of an entry.
unfoldable pub unique_ids : Coordinator → Entities → List Text
unfolding open_zones_unique_id
unique_ids c e =
    map (λ p. p.unique_id) e.alarm_panels
    ++ map (open_zones_unique_id c) e.open_zones_sensors
    ++ map (health_unique_id c) e.health_entities
    ++ map (zone_unique_id c.entry.entry_id) e.zone_sensors.known
