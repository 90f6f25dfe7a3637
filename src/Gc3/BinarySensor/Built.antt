-- ===== src/Gc3/BinarySensor/Built.antt =====
-- When a zone sensor can be built on the snapshot of a poll.
use homeassistant_2gig_gc.Prelude.{
  ◌≡◌, refl, ap, ◌∙◌, Bool, true, false, Option, none, some, List, [], ◌∷◌, Text, codes, text_Eq,
  Dict, ◌==◌, All, get, ◌++◌, if◌then◌else◌,
}
use homeassistant_2gig_gc.Python.Effects.{Result, ok, raised, bind, key_error, Ensures, Ensures-at}
use homeassistant_2gig_gc.Python.Json.{Json, str}
use homeassistant_2gig_gc.Pygc3.Models.{PanelStatus, Zone, as_text}
use homeassistant_2gig_gc.Pygc3.Client.{Env}
use homeassistant_2gig_gc.Pygc3.Client.Listing.{IsSensor}
use homeassistant_2gig_gc.Gc3.Coordinator.{
  Coordinator, Gc3Data, update_data, store, index_zones, new_data, absorb, fetch,
}
use homeassistant_2gig_gc.Gc3.Coordinator.Polling.{Outcome, update_data-Outcome}
use homeassistant_2gig_gc.Gc3.Const.{ConfigEntry, conf_host}
use homeassistant_2gig_gc.Gc3.Entity.{DeviceInfo, device_info}
use homeassistant_2gig_gc.Gc3.Setup.{item}
use homeassistant_2gig_gc.Gc3.BinarySensor.{
  ZoneSensor, new_zone_sensor, build_sensor, sensor_name, find_zone, zone_unique_id,
}
use homeassistant_2gig_gc.Gc3.BinarySensor.Entities.{last_zone, get-index}

-- A name that is a text, of a zone if there is one.
abbrev IsNamed : Option Zone → Type 0
IsNamed none = Unit
IsNamed (some z) = IsSensor z

found-IsNamed :
    (b : Bool) (z : Zone) (found : Option Zone)
    → IsSensor z
    → IsNamed found
    → IsNamed (if b then some z else found)
found-IsNamed true z found h k = h
found-IsNamed false z found h k = k

last_zone-IsNamed :
    (found : Option Zone) (zones : List Zone) (i : Text)
    → IsNamed found
    → All IsSensor zones
    → IsNamed (last_zone found zones i)
last_zone-IsNamed found [] i k h = k
last_zone-IsNamed found (z ∷ zs) i k (h, hs) =
    last_zone-IsNamed (if z.id == i then some z else found) zs i
      (found-IsNamed (z.id == i) z found h k) hs

-- The name that a sensor of that zone takes.
abbrev pub name_of : Text → Option Zone → Json
name_of i none = str (codes "Zone " ++ i)
name_of i (some z) = z.name

-- The sensor is built, with that zone's name, and its entry has a host; or a KeyError is raised, and its
-- entry has none.
abbrev pub Builds : Coordinator → Text → Json → Result ZoneSensor → Type 0
Builds c i name (ok s) =
    (s.zone_id ≡ i)
    × (s.name ≡ name)
    × (s.unique_id ≡ zone_unique_id c.entry.entry_id i)
    × (host : Json) × (get c.entry.stored conf_host ≡ some host)
Builds c i name (raised e) = (e ≡ key_error) × (get c.entry.stored conf_host ≡ none)

-- The base class needs the host.
abbrev Based : ConfigEntry → Result DeviceInfo → Type 0
Based entry (ok device) = (host : Json) × (get entry.stored conf_host ≡ some host)
Based entry (raised e) = (e ≡ key_error) × (get entry.stored conf_host ≡ none)

item-none : (d : Dict Text Json) (key : Text) → get d key ≡ none → item d key ≡ raised key_error
unfolding item
item-none d key e = ap (λ o. elim o [ none ↦ raised key_error | some v ↦ ok v ]) e

item-some : (d : Dict Text Json) (key : Text) (v : Json) → get d key ≡ some v → item d key ≡ ok v
unfolding item
item-some d key v e = ap (λ o. elim o [ none ↦ raised key_error | some v ↦ ok v ]) e

device_info-Based :
    (repr : Json → Text) (entry : ConfigEntry) (host : Option Json)
    → get entry.stored conf_host ≡ host
    → Based entry (device_info repr entry)
unfolding device_info
device_info-Based repr entry none e = rw (item-none entry.stored conf_host e) (refl, e)
device_info-Based repr entry (some v) e = rw (item-some entry.stored conf_host v e) (v, e)

text-Builds :
    (device : DeviceInfo) (c : Coordinator) (i : Text) (name : Json) (t : Text)
    → Based c.entry (ok device)
    → name ≡ str t
    → Builds c i name (build_sensor device c i name)
unfolding build_sensor as_text
text-Builds device c i name t based e = rw e (refl, refl, refl, based.0, based.1)

named-Builds :
    (r : Result DeviceInfo) (c : Coordinator) (i : Text) (found : Option Zone)
    → Based c.entry r
    → IsNamed found
    → Builds c i (name_of i found) (bind r (λ device. build_sensor device c i (name_of i found)))
named-Builds (raised e) c i found based h = based
named-Builds (ok device) c i none based h = text-Builds device c i _ (codes "Zone " ++ i) based refl
named-Builds (ok device) c i (some z) based h = text-Builds device c i z.name h.text based h.named

-- The index of a snapshot is that of its zones.
store-index :
    (r : Result (PanelStatus × List Zone)) (c : Coordinator)
    → Ensures (λ d. d.by_id ≡ index_zones [] d.zones) (store r c).0
unfolding new_data absorb
store-index (ok p) c = refl
store-index (raised e) c = tt

sensors_of :
    (c c' : Coordinator) (r : Result Gc3Data) (d : Gc3Data)
    → r ≡ ok d
    → Outcome c r c'
    → All IsSensor d.zones
sensors_of c c' r d e h = let h' : Outcome c (ok d) c' = rw e at h in h'.2

update_data-index :
    (env : Env) (c : Coordinator)
    → Ensures (λ d. d.by_id ≡ index_zones [] d.zones) (update_data env c).0
unfolding update_data
update_data-index env c = let (r, w) = fetch env c.world in store-index r (record c { world = w })

name_found :
    (i : Text) (o : Option Zone)
    → (elim o [ none ↦ str (codes "Zone " ++ i) | some z ↦ z.name ]) ≡ name_of i o
name_found i none = refl
name_found i (some z) = refl

sensor_name-last :
    (c : Coordinator) (d : Gc3Data) (i : Text)
    → d.by_id ≡ index_zones [] d.zones
    → sensor_name (record c { last = some d }) i ≡ name_of i (last_zone none d.zones i)
unfolding sensor_name find_zone get
sensor_name-last c d i e =
    name_found i (get d.by_id i)
    ∙ ap (λ o. name_of i o) (ap (λ index. get index i) e ∙ get-index [] d.zones i)

-- On the snapshot of any poll that succeeded the sensor of every zone is built exactly when the data of the
-- entry have a host; without one a KeyError is raised, and nothing else ever is. The sensor keeps its zone
-- id and has the unique id of that zone; its name is that of the last zone of its id in the panel's list,
-- and made of the id where there is none.
pub new_zone_sensor-Builds :
    (env : Env) (c : Coordinator) (d : Gc3Data) (i : Text)
    → (update_data env c).0 ≡ ok d
    → let c' = record (update_data env c).1 { last = some d } in
      Builds c' i (name_of i (last_zone none d.zones i)) (new_zone_sensor env.repr c' i)
unfolding new_zone_sensor
new_zone_sensor-Builds env c d i e =
    let (r, c₁) = update_data env c in
    let c' = record c₁ { last = some d } in
    let index =
      Ensures-at (λ (d : Gc3Data). d.by_id ≡ index_zones [] d.zones) r d e
        (update_data-index env c) in
    let sensors = sensors_of c c₁ r d e (update_data-Outcome env c) in
    rw (sensor_name-last c₁ d i index) (
      named-Builds (device_info env.repr c'.entry) c' i (last_zone none d.zones i)
        (device_info-Based env.repr c'.entry _ refl) (last_zone-IsNamed none d.zones i tt sensors))
