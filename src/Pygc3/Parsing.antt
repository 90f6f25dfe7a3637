-- ===== src/Pygc3/Parsing.antt =====
-- Well-formed answers of the panel are parsed, whatever else they hold.
use homeassistant_2gig_gc.Prelude.{
  ◌≡◌, refl, Bool, true, false, not, ◌||◌, Option, none, some, List, [], ◌∷◌, ◌++◌, map, filter,
  Text, codes, text_Eq, ◌==◌, All, lower, strip, ℤ, if◌then◌else◌,
}
use homeassistant_2gig_gc.Python.Effects.{Result, ok, raised, bind, map_result}
use homeassistant_2gig_gc.Python.Json.{
  Json, null, int, str, obj, Fields, end, field, get_field, str_of, or_value,
}
use homeassistant_2gig_gc.Pygc3.Models.{Zone, zone, serial_of, is_console, as_text, int_of}
use homeassistant_2gig_gc.Pygc3.Client.{without_console}

-- A serial number is a number or missing, a descriptor a text or missing, the status an object or
-- missing.
abbrev pub IsSerial : Json → Type 0
IsSerial null = Unit
IsSerial (int n) = Unit
IsSerial v = ⊥

abbrev pub IsDescriptor : Json → Type 0
IsDescriptor null = Unit
IsDescriptor (str s) = Unit
IsDescriptor v = ⊥

abbrev pub IsFlags : Json → Type 0
IsFlags null = Unit
IsFlags (obj fs) = Unit
IsFlags v = ⊥

-- A well-formed entry of the zones.
abbrev pub IsEntry : Json → Type 0
IsEntry (obj fs) =
    IsSerial (get_field fs (codes "deviceSerialNumber"))
    × IsDescriptor (get_field fs (codes "voiceDescriptor"))
    × IsFlags (get_field fs (codes "status"))
IsEntry v = ⊥

-- The name that a zone is shown by.
abbrev shown_name : (Json → Text) → Fields → Json
shown_name repr fs =
    or_value (get_field fs (codes "voiceDescriptor"))
      (str (codes "Zone " ++ str_of repr (get_field fs (codes "id"))))

abbrev reads_console : Json → Bool
reads_console (str t) = lower (strip t) == codes "console"
reads_console v = false

-- The entry is that of the console: by its id, or by its name.
abbrev pub console_entry : (Json → Text) → Json → Bool
console_entry repr (obj fs) =
    str_of repr (get_field fs (codes "id")) == codes "0" || reads_console (shown_name repr fs)
console_entry repr v = false

serial-parses : (v : Json) → IsSerial v → (o : Option ℤ) × (serial_of v ≡ ok o)
unfolding int_of
serial-parses null h = (none, refl)
serial-parses (int n) h = (some n, refl)
serial-parses _ h = absurd h

descriptor-text :
    (v : Json) (fallback : Text) → IsDescriptor v → (t : Text) × (or_value v (str fallback) ≡ str t)
descriptor-text null fallback h = (fallback, refl)
descriptor-text (str []) fallback h = (fallback, refl)
descriptor-text (str (c ∷ s)) fallback h = (c ∷ s, refl)
descriptor-text _ fallback h = absurd h

flags-parse : (v : Json) → IsFlags v → (fs : Fields) × (or_value v (obj end) ≡ obj fs)
flags-parse null h = (end, refl)
flags-parse (obj end) h = (end, refl)
flags-parse (obj (field k v fs)) h = (field k v fs, refl)
flags-parse _ h = absurd h

-- What is said of the zone that an entry is parsed to.
abbrev pub Parsed : (Json → Text) → Json → Result Zone → Type 0
Parsed repr v (ok z) = (z.raw ≡ v) × (is_console z ≡ ok (console_entry repr v))
Parsed repr v (raised e) = ⊥

console-reads :
    (zero : Bool) (name : Json) (t : Text)
    → name ≡ str t
    → (if zero then ok true else bind (as_text name) (λ s. ok (lower (strip s) == codes "console")))
      ≡ ok (zero || reads_console name)
unfolding as_text
console-reads true name t e = refl
console-reads false name t e = rw e refl

pub zone-Parsed : (repr : Json → Text) (v : Json) → IsEntry v → Parsed repr v (zone repr v)
unfolding zone is_console
zone-Parsed repr (obj fs) (serial, descriptor, flags) =
    let (number, parsed) = serial-parses (get_field fs (codes "deviceSerialNumber")) serial in
    let (t, named) =
      descriptor-text (get_field fs (codes "voiceDescriptor"))
        (codes "Zone " ++ str_of repr (get_field fs (codes "id"))) descriptor in
    let (gs, whole) = flags-parse (get_field fs (codes "status")) flags in
    rw (parsed, whole) (refl, console-reads _ _ t named)
zone-Parsed repr _ h = absurd h

-- The first list is parsed to zones, of which those that are kept are the second list.
abbrev pub Listed : (Json → Text) → List Json → List Json → Type 0
Listed repr vs left =
    (parsed : List Zone) × (map_result (zone repr) vs ≡ ok parsed)
    × (kept : List Zone) × (without_console parsed ≡ ok kept)
    × (map (λ z. z.raw) kept ≡ left)

kept-raw :
    (console : Bool) (z : Zone) (kept : List Zone) (v : Json) (left : List Json)
    → z.raw ≡ v
    → map (λ z. z.raw) kept ≡ left
    → map (λ z. z.raw) (if console then kept else z ∷ kept)
      ≡ (if not console then v ∷ left else left)
kept-raw true z kept v left e es = es
kept-raw false z kept v left e es = rw (e, es) refl

next-Listed :
    (repr : Json → Text) (v : Json) (vs left : List Json) (r : Result Zone)
    → zone repr v ≡ r
    → Parsed repr v r
    → Listed repr vs left
    → Listed repr (v ∷ vs) (if not (console_entry repr v) then v ∷ left else left)
unfolding map_result without_console
next-Listed repr v vs left (ok z) found (whole, console) (parsed, all, kept, rest, raws) = (
  z ∷ parsed,
  rw (found, all) refl,
  (if console_entry repr v then kept else z ∷ kept),
  rw (console, rest) refl,
  kept-raw (console_entry repr v) z kept v left whole raws,
)
next-Listed repr v vs left (raised e) found h rest = absurd h

-- Well-formed entries are all parsed, and all but those of the console are kept.
pub entries-Listed :
    (repr : Json → Text) (vs : List Json)
    → All IsEntry vs
    → Listed repr vs (filter (λ v. not (console_entry repr v)) vs)
unfolding map_result without_console
entries-Listed repr [] h = ([], refl, [], refl, refl)
entries-Listed repr (v ∷ vs) (h, hs) =
    next-Listed repr v vs _ (zone repr v) refl (zone-Parsed repr v h) (entries-Listed repr vs hs)
