-- ===== src/Pygc3/Wire.antt =====
-- What a status and a zone say is what their JSON says.
use homeassistant_2gig_gc.Prelude.{
  ℤ, ◌≡◌, refl, sym, ◌∙◌, inl, inr, Bool, false, Option, [], Text, codes, text_Eq, lower,
  Bool-cases,
}
use homeassistant_2gig_gc.Python.Effects.{Result, ok, raised, Error, attribute_error, ok-injective}
use homeassistant_2gig_gc.Python.Json.{
  Json, null, str, obj, Fields, end, field, get_field, str_of, or_value, truthy,
}
use homeassistant_2gig_gc.Pygc3.Models.{Zone, ZoneStatus, zone, zone_status, as_bool, serial_of}

-- The panel's word for its state in a status answer, in lower case, and its stay flag; a word that is
-- missing is empty, a flag that is missing false.
abbrev pub wire_word : (Json → Text) → Fields → Text
wire_word repr fs = lower (str_of repr (or_value (get_field fs (codes "armState")) (str [])))

abbrev pub wire_stay : Fields → Bool
wire_stay fs = as_bool (get_field fs (codes "isArmedStay"))

-- The id in an entry of the zones, and a flag of its status; what is missing is false.
abbrev pub wire_id : (Json → Text) → Json → Text
wire_id repr (obj fs) = str_of repr (get_field fs (codes "id"))
wire_id repr v = []

abbrev flag_in : Json → Text → Bool
flag_in (obj fs) key = as_bool (get_field fs key)
flag_in v key = false

abbrev status_in : Json → ZoneStatus
status_in v = record {
  is_open = flag_in v (codes "open");
  in_alarm = flag_in v (codes "inAlarm");
  battery_low = flag_in v (codes "batteryLow");
  tampered = flag_in v (codes "tampered");
  bypassed = flag_in v (codes "bypassed");
  bypassable = flag_in v (codes "bypassable");
  loss_of_supervision = flag_in v (codes "lossOfSupervision");
  not_ready = flag_in v (codes "notReady");
  crossed = flag_in v (codes "crossed");
  raw = or_value v (obj end);
}

abbrev pub wire_status : Json → ZoneStatus
wire_status (obj fs) = status_in (get_field fs (codes "status"))
wire_status v = status_in null

-- A status that is no object is read where it is false, as an empty one.
zone_status-other :
    (v : Json) (s : ZoneStatus)
    → ((key : Text) → flag_in v key ≡ false)
    → (x : Error) × (zone_status v ≡ raised x)
    → zone_status (or_value v (obj end)) ≡ ok s
    → s ≡ status_in v
unfolding zone_status as_bool get_field
zone_status-other v s f (x, refused) h = elim (Bool-cases (truthy v)) [
  | inl full ↦ absurd (cc (full, refused, h))
  | inr empty ↦
      sym (ok-injective (rw empty at h))
      ∙ rw
          (
            empty,
            f (codes "open"),
            f (codes "inAlarm"),
            f (codes "batteryLow"),
            f (codes "tampered"),
            f (codes "bypassed"),
            f (codes "bypassable"),
            f (codes "lossOfSupervision"),
            f (codes "notReady"),
            f (codes "crossed"),
          )
          refl
]

zone_status-read :
    (v : Json) (s : ZoneStatus) → zone_status (or_value v (obj end)) ≡ ok s → s ≡ status_in v
unfolding zone_status as_bool
zone_status-read (obj end) s e = sym (ok-injective e)
zone_status-read (obj (field k v fs)) s e = sym (ok-injective e)
zone_status-read v s e = zone_status-other v s (λ key. refl) (attribute_error, refl) e

-- The id and the status of a zone are those of the entry that it keeps.
abbrev pub Reads : (Json → Text) → Zone → Type 0
Reads repr z = (z.id ≡ wire_id repr z.raw) × (z.status ≡ wire_status z.raw)

zone-built :
    (repr : Json → Text) (fs : Fields) (z : Zone) (number : Result (Option ℤ))
    (status : Result ZoneStatus)
    → serial_of (get_field fs (codes "deviceSerialNumber")) ≡ number
    → zone_status (or_value (get_field fs (codes "status")) (obj end)) ≡ status
    → zone repr (obj fs) ≡ ok z
    → Reads repr z
unfolding zone
zone-built repr fs z (ok n) (ok s) e f h =
    let g = ok-injective (rw (e, f) at h) in
    let read = zone_status-read (get_field fs (codes "status")) s f in rw⁻¹ g (refl, read)
zone-built repr fs z (raised x) status e f h = absurd (cc (rw e at h))
zone-built repr fs z (ok n) (raised x) e f h = absurd (cc (rw (e, f) at h))

pub zone-Reads : (repr : Json → Text) (v : Json) (z : Zone) → zone repr v ≡ ok z → Reads repr z
unfolding zone
zone-Reads repr (obj fs) z h = zone-built repr fs z _ _ refl refl h
zone-Reads repr _ z h = cc
