-- ===== src/Gc3/BinarySensor/Labels.antt =====
-- Which names `zone_device_class` takes for what.
use homeassistant_2gig_gc.Prelude.{
  ◌≡◌, refl, ◌↔◌, ap, if◌then◌else◌, Bool, true, false, not, ◌||◌, none, some, Text, codes, lower,
  lower_idem, is_in, ends_with, arith,
}
use homeassistant_2gig_gc.Gc3.BinarySensor.{
  motion, moisture, vibration, smoke, co, cold, heat, garage_door, window, door, opening, any_in,
  transient_keywords, motion_keywords, moisture_keywords, classify, zone_device_class,
  is_transient_zone, is_opening_zone, is_opening_class,
}

-- The name is told apart regardless of its case.
pub zone_device_class-lower :
    (name : Text) → zone_device_class (lower name) ≡ zone_device_class name
unfolding zone_device_class
zone_device_class-lower name = ap classify (lower_idem name)

classify-none : (n : Text) → (classify n ≡ none) ↔ (any_in transient_keywords n ≡ true)
unfolding classify
classify-none n = ground arith

-- A zone has no device class exactly when it is transient: the sensors that start without a class are
-- those that start disabled.
pub zone_device_class-none :
    (name : Text) → (zone_device_class name ≡ none) ↔ (is_transient_zone name ≡ true)
unfolding zone_device_class is_transient_zone
zone_device_class-none name = classify-none (lower name)

-- A name, in lower case, that speaks of a keyfob or of a detector rather than of an opening.
abbrev pub is_detector : Text → Bool
is_detector n =
    any_in transient_keywords n
    || any_in motion_keywords n
    || any_in moisture_keywords n
    || is_in (codes "glass") n
    || (is_in (codes "smoke") n || is_in (codes "fire") n)
    || (is_in (codes "co ") n || ends_with n (codes " co") || is_in (codes "carbon") n)
    || (is_in (codes "freeze") n || is_in (codes "cold") n)
    || is_in (codes "heat") n

-- The tests of `classify` in a row, as Boolean values.
cascade :
    (t m w g s c f h o n d : Bool)
    → is_opening_class (
        if t
        then none
        else if m
        then some motion
        else if w
        then some moisture
        else if g
        then some vibration
        else if s
        then some smoke
        else if c
        then some co
        else if f
        then some cold
        else if h
        then some heat
        else if o
        then some garage_door
        else if n
        then some window
        else if d
        then some door
        else some opening)
      ≡ not (t || m || w || g || s || c || f || h)
cascade true m w g s c f h o n d = refl
cascade false true w g s c f h o n d = refl
cascade false false w g s c f h o n d = ground arith

-- A zone counts as a way into the house exactly when its name has none of the words of keyfobs and
-- detectors, whatever else it says.
pub is_opening_zone-not_detector :
    (name : Text) → is_opening_zone name ≡ not (is_detector (lower name))
unfolding is_opening_zone
is_opening_zone-not_detector name = cascade _ _ _ _ _ _ _ _ _ _ _
