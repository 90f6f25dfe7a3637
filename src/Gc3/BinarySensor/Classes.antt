-- ===== src/Gc3/BinarySensor/Classes.antt =====
-- `zone_device_class` and the predicates on it, of custom_components/gc3/binary_sensor.py.
use homeassistant_2gig_gc.Prelude.{
  Bool, true, false, ◌||◌, Option, none, some, List, [], ◌∷◌, Text, codes, any, lower, is_in,
  ends_with, if◌then◌else◌,
}

-- The device classes of Home Assistant that the integration uses.
pub data DeviceClass : Type 0 where
  motion moisture vibration smoke co cold heat garage_door window door opening : DeviceClass
  battery tamper problem : DeviceClass

-- `any(k in n for k in keywords)`
abbrev pub any_in : List Text → Text → Bool
any_in keywords n = any (λ k. is_in k n) keywords

abbrev pub transient_keywords : List Text
transient_keywords = codes "keyfob" ∷ codes "key fob" ∷ codes "fob" ∷ codes "pendant" ∷ []

abbrev pub motion_keywords : List Text
motion_keywords = codes "motion" ∷ codes "pir" ∷ codes "occup" ∷ []

abbrev pub moisture_keywords : List Text
moisture_keywords =
    codes "flood" ∷ codes "leak" ∷ codes "water" ∷ codes "moisture" ∷ codes "sump" ∷ []

abbrev pub door_keywords : List Text
door_keywords = codes "door" ∷ codes "slider" ∷ codes "gate" ∷ []

-- The tests of `zone_device_class`, on the lowered name.
unfoldable pub classify : Text → Option DeviceClass
classify n =
    if any_in transient_keywords n
    then none
    else if any_in motion_keywords n
    then some motion
    else if any_in moisture_keywords n
    then some moisture
    else if is_in (codes "glass") n
    then some vibration
    else if is_in (codes "smoke") n || is_in (codes "fire") n
    then some smoke
    else if is_in (codes "co ") n || ends_with n (codes " co") || is_in (codes "carbon") n
    then some co
    else if is_in (codes "freeze") n || is_in (codes "cold") n
    then some cold
    else if is_in (codes "heat") n
    then some heat
    else if is_in (codes "overhead") n || is_in (codes "garage door") n
    then some garage_door
    else if is_in (codes "window") n
    then some window
    else if any_in door_keywords n
    then some door
    else some opening

-- `zone_device_class`
unfoldable pub zone_device_class : Text → Option DeviceClass
unfolding classify
zone_device_class name = classify (lower name)

-- `is_transient_zone`
unfoldable pub is_transient_zone : Text → Bool
is_transient_zone name = any_in transient_keywords (lower name)

-- `in OPENING_DEVICE_CLASSES`; `None` is not
abbrev pub is_opening_class : Option DeviceClass → Bool
is_opening_class (some door) = true
is_opening_class (some window) = true
is_opening_class (some garage_door) = true
is_opening_class (some opening) = true
is_opening_class c = false

-- `is_opening_zone`
unfoldable pub is_opening_zone : Text → Bool
unfolding zone_device_class
is_opening_zone name = is_opening_class (zone_device_class name)
