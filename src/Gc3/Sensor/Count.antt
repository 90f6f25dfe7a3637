-- ===== src/Gc3/Sensor/Count.antt =====
-- The count of openings that are open, on the snapshot of a poll.
use homeassistant_2gig_gc.Prelude.{
  ℕ, suc, ◌≡◌, refl, ap, ◌∙◌, Bool, ◌&&◌, some, List, [], ◌∷◌, map, Text, All, filter, length,
  arith, if◌then◌else◌,
}
use homeassistant_2gig_gc.Python.Effects.{Result, ok, bind}
use homeassistant_2gig_gc.Python.Json.{Json, str}
use homeassistant_2gig_gc.Pygc3.Models.{Zone, as_text}
use homeassistant_2gig_gc.Pygc3.Client.{Env}
use homeassistant_2gig_gc.Pygc3.Client.Listing.{IsSensor}
use homeassistant_2gig_gc.Gc3.BinarySensor.{is_opening_zone}
use homeassistant_2gig_gc.Gc3.Coordinator.{Coordinator, Gc3Data, update_data}
use homeassistant_2gig_gc.Gc3.Coordinator.Polling.{Outcome, update_data-Outcome}
use homeassistant_2gig_gc.Gc3.Sensor.{open_names, native_value}

-- The name of a zone, where it is a text.
abbrev name_text : Json → Text
name_text (str t) = t
name_text v = []

-- A zone that is open and a way into the house.
abbrev pub is_open_way : Zone → Bool
is_open_way z = z.status.is_open && is_opening_zone (name_text z.name)

-- The number of the zones that are.
abbrev pub count_ways : List Zone → ℕ
count_ways [] = 0
count_ways (z ∷ zs) = let rest = count_ways zs in if is_open_way z then suc rest else rest

as_text-named : (v : Json) (t : Text) → v ≡ str t → (as_text v ≡ ok t) × (name_text v ≡ t)
unfolding as_text
as_text-named v t e = rw e (refl, refl)

open_names-IsSensor :
    (zones : List Zone)
    → All IsSensor zones
    → open_names zones ≡ ok (map (λ z. z.name) (filter is_open_way zones))
unfolding open_names
open_names-IsSensor [] h = refl
open_names-IsSensor (z ∷ zs) h =
    ground (arith, as_text-named z.name h.0.text h.0.named, open_names-IsSensor zs h.1)

length-ways :
    (zones : List Zone)
    → length (map (λ (z : Zone). z.name) (filter is_open_way zones)) ≡ count_ways zones
length-ways [] = refl
length-ways (z ∷ zs) = ground (arith, length-ways zs)

counted :
    (c : Coordinator) (d : Gc3Data) (c' : Coordinator)
    → Outcome c (ok d) c'
    → native_value (record c' { last = some d }) ≡ ok (some (count_ways d.zones))
unfolding native_value
counted c d c' h =
    ap (λ r. bind r (λ names. ok (some (length names)))) (open_names-IsSensor d.zones h.2)
    ∙ ap (λ n. ok (some n)) (length-ways d.zones)

counted_at :
    (c : Coordinator) (d : Gc3Data) (r : Result Gc3Data) (c' : Coordinator)
    → r ≡ ok d
    → Outcome c r c'
    → Outcome c (ok d) c'
counted_at c d r c' e h = rw e at h

-- On the snapshot of any poll that succeeded the sensor raises nothing: it shows the number of listed
-- zones that are open and a way into the house.
pub native_value-count :
    (env : Env) (c : Coordinator) (d : Gc3Data)
    → (update_data env c).0 ≡ ok d
    → native_value (record (update_data env c).1 { last = some d }) ≡ ok (some (count_ways d.zones))
native_value-count env c d e =
    counted c d (update_data env c).1
      (counted_at c d (update_data env c).0 (update_data env c).1 e (update_data-Outcome env c))
