-- ===== src/Gc3/BinarySensor/Entities.antt =====
-- The zone sensors and the health sensors, on the snapshot of a poll.
use mathlib.Core.Option
use homeassistant_2gig_gc.Prelude.{
  ◌≡◌, refl, ap, ◌∙◌, ◌↔◌, Bool, true, false, not, ◌&&◌, ◌||◌, Option, none, some, List, [], ◌∷◌,
  Text, text_Eq, ◌==◌, Dict, get, put, get-put, contains-put, keys, contains, any, filter,
  filter-is_empty, is_empty, is_empty-map, arith, if◌then◌else◌,
}
use homeassistant_2gig_gc.Python.Effects.{Result, ok, raised, bind, ok-injective}
use homeassistant_2gig_gc.Python.Json.{Json, str}
use homeassistant_2gig_gc.Pygc3.Models.{PanelStatus, Zone, as_text}
use homeassistant_2gig_gc.Gc3.Coordinator.{Coordinator, new_data, index_zones, zone_ids}
use homeassistant_2gig_gc.Gc3.Entity.{DeviceInfo, device_info}
use homeassistant_2gig_gc.Gc3.BinarySensor.{
  Platform, sync_zones, available, zone_is_on, HealthDescription, affected_zones, health_is_on,
  ZoneSensor, new_zone_sensor, build_sensor, sensor_name,
}
use homeassistant_2gig_gc.Gc3.BinarySensor.Labels.{zone_device_class-none}
use homeassistant_2gig_gc.Gc3.BinarySensor.Sync.{known-sync_ids}

-- The keys of the index are the ids of the zones.
pub contains-keys_index :
    (d : Dict Text Zone) (zones : List Zone) (i : Text)
    → contains (keys (index_zones d zones)) i ≡ (contains (keys d) i || contains (zone_ids zones) i)
unfolding index_zones contains
contains-keys_index d [] i = ground arith
contains-keys_index d (z ∷ zs) i =
    ground (arith, contains-keys_index (put d z.id z) zs i, contains-put d z.id z i)

-- The last zone of an id, if any.
abbrev pub last_zone : Option Zone → List Zone → Text → Option Zone
last_zone found [] i = found
last_zone found (z ∷ zs) i = last_zone (if z.id == i then some z else found) zs i

pub get-index :
    (d : Dict Text Zone) (zones : List Zone) (i : Text)
    → get (index_zones d zones) i ≡ last_zone (get d i) zones i
unfolding index_zones
get-index d [] i = refl
get-index d (z ∷ zs) i =
    get-index (put d z.id z) zs i ∙ ap (λ o. last_zone o zs i) (get-put d z.id i z)

is_some-last_zone :
    (found : Option Zone) (zones : List Zone) (i : Text)
    → (elim (last_zone found zones i) [ none ↦ false | some z ↦ true ])
      ≡ ((elim found [ none ↦ false | some z ↦ true ]) || contains (zone_ids zones) i)
unfolding contains
is_some-last_zone found [] i = ground arith
is_some-last_zone found (z ∷ zs) i =
    ground (arith, is_some-last_zone (if z.id == i then some z else found) zs i)

module _ (status : PanelStatus) (zones : List Zone) (c : Coordinator) where
  -- The coordinator with the snapshot of a poll.
  abbrev pub polled : Coordinator
  polled = record c { last = some (new_data status zones) }

  -- After a sync with the snapshot of a poll, the known zones are those of the panel's list.
  pub known-sync_zones :
      (registry : Text → Option Text) (p : Platform) (i : Text)
      → contains (sync_zones registry polled p).known i ≡ contains (zone_ids zones) i
  unfolding sync_zones new_data contains
  known-sync_zones registry p i =
      known-sync_ids registry c.entry.entry_id (keys (index_zones [] zones)) p i
      ∙ contains-keys_index [] zones i

  -- A zone sensor is available exactly while the coordinator reaches the panel and the panel lists
  -- the zone.
  pub available-listed :
      (reachable : Bool) (i : Text)
      → available reachable polled i ≡ (reachable && contains (zone_ids zones) i)
  unfolding available new_data get
  available-listed reachable i =
      ap (λ o. reachable && elim o [ none ↦ false | some z ↦ true ]) (get-index [] zones i)
      ∙ ap (λ b. reachable && b) (is_some-last_zone none zones i)

  -- A zone sensor shows what the last entry of its id in the panel's list says, and nothing where
  -- there is none.
  pub zone_is_on-last :
      (i : Text) → zone_is_on polled i ≡ Option.map (λ z. z.status.is_open) (last_zone none zones i)
  unfolding zone_is_on new_data get
  zone_is_on-last i =
      ap (λ o. elim o [ none ↦ none | some z ↦ some z.status.is_open ]) (get-index [] zones i)
      ∙ ground arith

  -- A health sensor is on exactly when some zone raises its flag, and it names a zone then.
  pub health_is_on-any :
      (d : HealthDescription)
      → (health_is_on d polled ≡ some (any (λ z. d.flag z.status) zones))
        × (is_empty (affected_zones d polled) ≡ not (any (λ z. d.flag z.status) zones))
  unfolding health_is_on new_data
  health_is_on-any d = ground (
    arith,
    is_empty-map (λ (z : Zone). z.name) (filter (λ z. d.flag z.status) zones),
    filter-is_empty (λ (z : Zone). d.flag z.status) zones,
  )

built-enabled :
    (device : DeviceInfo) (c : Coordinator) (i : Text) (v : Json) (s : ZoneSensor)
    → build_sensor device c i v ≡ ok s
    → (s.enabled_default ≡ false) ↔ (s.device_class ≡ none)
unfolding build_sensor as_text
built-enabled device c i (str t) s e =
    let p = ok-injective e in
    ground (
      arith,
      zone_device_class-none t,
      ap (λ (s : ZoneSensor). s.enabled_default) p,
      ap (λ (s : ZoneSensor). s.device_class) p,
    )
built-enabled device c i _ s e = cc

based-enabled :
    (r : Result DeviceInfo) (c : Coordinator) (i : Text) (v : Json) (s : ZoneSensor)
    → bind r (λ device. build_sensor device c i v) ≡ ok s
    → (s.enabled_default ≡ false) ↔ (s.device_class ≡ none)
based-enabled (ok device) c i v s e = built-enabled device c i v s e
based-enabled (raised x) c i v s e = cc

-- A zone sensor starts disabled exactly when it has no device class.
pub new_zone_sensor-enabled :
    (repr : Json → Text) (c : Coordinator) (i : Text) (s : ZoneSensor)
    → new_zone_sensor repr c i ≡ ok s
    → (s.enabled_default ≡ false) ↔ (s.device_class ≡ none)
unfolding new_zone_sensor
new_zone_sensor-enabled repr c i s e =
    based-enabled (device_info repr c.entry) c i (sensor_name c i) s e
