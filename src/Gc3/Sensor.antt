-- ===== src/Gc3/Sensor.antt =====
-- custom_components/gc3/sensor.py: the count of openings that are open.
pub mod Count
use homeassistant_2gig_gc.Prelude.{ℕ, Option, none, some, List, [], ◌∷◌, length, if◌then◌else◌}
use homeassistant_2gig_gc.Python.Effects.{Result, ok, bind}
use homeassistant_2gig_gc.Python.Json.{Json}
use homeassistant_2gig_gc.Pygc3.Models.{Zone, as_text}
use homeassistant_2gig_gc.Gc3.BinarySensor.{is_opening_zone}
use homeassistant_2gig_gc.Gc3.Coordinator.{Coordinator}

-- The comprehension of `_open_zones`; the name is looked at only where the zone is open.
unfoldable pub open_names : List Zone → Result (List Json)
open_names [] = ok []
open_names (z ∷ zs) =
    let rest = open_names zs in
    if z.status.is_open
    then bind (as_text z.name)
        (λ name. bind rest (λ names. ok (if is_opening_zone name then z.name ∷ names else names)))
    else rest

-- `_open_zones`
unfoldable pub open_zones : Coordinator → Result (List Json)
unfolding open_names
open_zones c = elim c.last [ none ↦ ok [] | some d ↦ open_names d.zones ]

-- `native_value`
unfoldable pub native_value : Coordinator → Result (Option ℕ)
unfolding open_zones
native_value c = elim c.last [
  | none ↦ ok none
  | some d ↦ bind (open_zones c) (λ names. ok (some (length names)))
]
