-- ===== src/Gc3/BinarySensor.antt =====
-- custom_components/gc3/binary_sensor.py: the zone sensors, the health sensors, and the listener
-- that keeps the zone sensors in step with the panel's zones.
mod Classes
mod Order
pub mod Labels
pub mod Sorting
pub mod Sync
pub mod Entities
pub mod Arrivals
pub mod Built
unfoldable pub use Classes.*
unfoldable pub use Order.*
use homeassistant_2gig_gc.Prelude.{
  Bool, true, false, not, ◌&&◌, Option, none, some, List, [], ◌∷◌, ◌++◌, map, Text, codes, text_Eq,
  Dict, keys, get, diff, filter, is_empty, if◌then◌else◌,
}
use homeassistant_2gig_gc.Python.Effects.{Result, ok, raised, bind}
use homeassistant_2gig_gc.Python.Json.{Json, bool, str}
use homeassistant_2gig_gc.Pygc3.Models.{Zone, ZoneStatus, as_text}
use homeassistant_2gig_gc.Gc3.Coordinator.{Coordinator, Gc3Data}
use homeassistant_2gig_gc.Gc3.Entity.{DeviceInfo, device_info}

-- `zone_unique_id`
unfoldable pub zone_unique_id : Text → Text → Text
zone_unique_id entry_id zone_id = entry_id ++ codes "_zone_" ++ zone_id

-- What the platform of one config entry keeps: the ids in `known`, the ids of each batch that it
-- handed to `async_add_entities`, and the entity ids that it removed from the registry.
pub record Platform : Type 0 where
  pub known : List Text
  pub added : List (List Text)
  pub removed : List Text

-- `async_setup_entry`, before its first `_sync_zones`
abbrev pub no_zones : Platform
no_zones = record { known = []; added = []; removed = [] }

add_new : List Text → Platform → Platform
add_new [] p = p
add_new (a ∷ new) p = record p {
  known = p.known ++ a ∷ new;
  added = p.added ++ sort_ids (a ∷ new) ∷ [];
}

-- The entity ids of the registry for some of the zones, those that it has.
entity_ids : (Text → Option Text) → Text → List Text → List Text
entity_ids registry entry_id [] = []
entity_ids registry entry_id (z ∷ zs) =
    let rest = entity_ids registry entry_id zs in
    elim (registry (zone_unique_id entry_id z)) [ none ↦ rest | some e ↦ e ∷ rest ]

drop_gone : (Text → Option Text) → Text → List Text → Platform → Platform
drop_gone registry entry_id gone p = record p {
  known = diff p.known gone;
  removed = p.removed ++ entity_ids registry entry_id gone;
}

-- The part of `_sync_zones` behind its test for data, on the ids of the current zones.
unfoldable pub sync_ids : (Text → Option Text) → Text → List Text → Platform → Platform
unfolding add_new drop_gone entity_ids
sync_ids registry entry_id current p =
    let p' = add_new (diff current p.known) p in
    drop_gone registry entry_id (diff p'.known current) p'

-- `_sync_zones`; `registry` is `async_get_entity_id` of the entity registry.
unfoldable pub sync_zones : (Text → Option Text) → Coordinator → Platform → Platform
unfolding sync_ids
sync_zones registry c p = elim c.last [
  | none ↦ p
  | some d ↦ sync_ids registry c.entry.entry_id (keys d.by_id) p
]

-- `GC3ZoneSensor._zone`
unfoldable pub find_zone : Coordinator → Text → Option Zone
find_zone c zone_id = elim c.last [ none ↦ none | some d ↦ get d.by_id zone_id ]

pub record ZoneSensor : Type 0 where
  pub device : DeviceInfo
  pub zone_id : Text
  pub unique_id : Text
  pub name : Json
  pub device_class : Option DeviceClass
  pub enabled_default : Bool

-- `zone.name if zone else f"Zone {zone_id}"`
unfoldable pub sensor_name : Coordinator → Text → Json
unfolding find_zone
sensor_name c zone_id = elim (find_zone c zone_id) [
  | none ↦ str (codes "Zone " ++ zone_id)
  | some z ↦ z.name
]

-- `GC3ZoneSensor.__init__` behind that of its base class, which left the device, with the name that it
-- found
unfoldable pub build_sensor : DeviceInfo → Coordinator → Text → Json → Result ZoneSensor
build_sensor device c zone_id name = bind (as_text name) λ text. ok (record {
  device = device;
  zone_id = zone_id;
  unique_id = zone_unique_id c.entry.entry_id zone_id;
  name = name;
  device_class = zone_device_class text;
  enabled_default = not (is_transient_zone text);
})

-- `GC3ZoneSensor.__init__`
unfoldable pub new_zone_sensor : (Json → Text) → Coordinator → Text → Result ZoneSensor
unfolding build_sensor
new_zone_sensor repr c zone_id =
    bind (device_info repr c.entry) λ device. build_sensor device c zone_id (sensor_name c zone_id)

-- `GC3ZoneSensor.available`; the flag is that of the base class.
unfoldable pub available : Bool → Coordinator → Text → Bool
unfolding find_zone
available reachable c zone_id =
    reachable && elim (find_zone c zone_id) [ none ↦ false | some z ↦ true ]

-- `GC3ZoneSensor.is_on`
unfoldable pub zone_is_on : Coordinator → Text → Option Bool
unfolding find_zone
zone_is_on c zone_id = elim (find_zone c zone_id) [ none ↦ none | some z ↦ some z.status.is_open ]

-- `GC3ZoneSensor.extra_state_attributes`
unfoldable pub zone_attributes : Coordinator → Text → Option (Dict Text Json)
unfolding find_zone
zone_attributes c zone_id = elim (find_zone c zone_id) [
  | none ↦ none
  | some z ↦ some (
      (codes "in_alarm", bool z.status.in_alarm)
      ∷ (codes "battery_low", bool z.status.battery_low)
      ∷ (codes "tampered", bool z.status.tampered)
      ∷ (codes "bypassed", bool z.status.bypassed)
      ∷ (codes "loss_of_supervision", bool z.status.loss_of_supervision)
      ∷ (codes "connection", z.connection_type)
      ∷ [])
]

-- `GC3HealthDescription`
pub record HealthDescription : Type 0 where
  pub key : Text
  pub device_class : DeviceClass
  pub flag : ZoneStatus → Bool

-- `HEALTH_SENSORS`
abbrev pub health_sensors : List HealthDescription
health_sensors =
    record { key = codes "battery_low"; device_class = battery; flag = λ s. s.battery_low }
    ∷ record { key = codes "tamper"; device_class = tamper; flag = λ s. s.tampered }
    ∷ record {
      key = codes "supervision_lost";
      device_class = problem;
      flag = λ s. s.loss_of_supervision;
    }
    ∷ record { key = codes "zones_bypassed"; device_class = problem; flag = λ s. s.bypassed }
    ∷ []

-- `GC3HealthSensor.__init__`: the unique id
unfoldable pub health_unique_id : Coordinator → HealthDescription → Text
health_unique_id c d = c.entry.entry_id ++ codes "_" ++ d.key

-- `GC3HealthSensor._affected_zones`
unfoldable pub affected_zones : HealthDescription → Coordinator → List Json
affected_zones d c = elim c.last [
  | none ↦ []
  | some snapshot ↦ map (λ z. z.name) (filter (λ z. d.flag z.status) snapshot.zones)
]

-- `GC3HealthSensor.is_on`
unfoldable pub health_is_on : HealthDescription → Coordinator → Option Bool
unfolding affected_zones
health_is_on d c = elim c.last [
  | none ↦ none
  | some snapshot ↦ some (not (is_empty (affected_zones d c)))
]
