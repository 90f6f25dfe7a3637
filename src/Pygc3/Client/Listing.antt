-- ===== src/Pygc3/Client/Listing.antt =====
-- What `zones` lists, and how it fails.
use homeassistant_2gig_gc.Prelude.{
  ◌≡◌, refl, ap, ◌∙◌, ◌≢◌, Bool, true, false, inl, inr, none, List, [], ◌∷◌, Text, codes, text_Eq,
  lower, strip, ◌==◌, All, arith, Bool-cases, ne_of_==, if◌then◌else◌,
}
use homeassistant_2gig_gc.Python.Effects.{
  Result, ok, bind, map_result, Ensures, Ensures-self, Ensures-bind, Ensures-at, Ensures-then,
}
use homeassistant_2gig_gc.Python.Json.{Json, str}
use homeassistant_2gig_gc.Pygc3.Models.{Zone, zone, is_console, as_text}
use homeassistant_2gig_gc.Pygc3.Client.{World, Env, zones, without_console, request, list_of}

-- A zone that is not the console: neither by its id nor by its name, which is a text.
pub record IsSensor (z : Zone) : Type 0 where
  pub not_zero : z.id ≢ codes "0"
  pub text : Text
  pub named : z.name ≡ str text
  pub not_console : lower (strip text) ≢ codes "console"

named_text :
    (v : Json)
    → bind (as_text v) (λ name. ok (lower (strip name) == codes "console")) ≡ ok false
    → (t : Text) × (v ≡ str t) × ((lower (strip t) == codes "console") ≡ false)
unfolding as_text
named_text (str t) h = (t, refl, ground arith)
named_text _ h = cc

IsSensor-of_is_console : (z : Zone) → is_console z ≡ ok false → IsSensor z
unfolding is_console
IsSensor-of_is_console z h = elim (Bool-cases (z.id == codes "0")) [
  | inl zero_id ↦ absurd (cc (rw zero_id at h))
  | inr other ↦
      let (t, named, plain) = named_text z.name (rw other at h) in
      record {
        not_zero = ne_of_== z.id (codes "0") other;
        text = t;
        named = named;
        not_console = ne_of_== (lower (strip t)) (codes "console") plain;
      }
]

All-if {ℓ} :
    {A : Type ℓ} (P : A → Type 0) (b : Bool) (x : A) (xs : List A)
    → (b ≡ false → P x)
    → All P xs
    → All P (if b then xs else x ∷ xs)
All-if P true x xs h hs = hs
All-if P false x xs h hs = (h refl, hs)

without_console-IsSensor : (parsed : List Zone) → Ensures (All IsSensor) (without_console parsed)
unfolding without_console
without_console-IsSensor [] = tt
without_console-IsSensor (z ∷ parsed) =
    Ensures-bind (λ c. is_console z ≡ ok c) (All IsSensor) (is_console z) _
      (Ensures-self (is_console z))
      λ c e.
        Ensures-bind (All IsSensor) (All IsSensor) (without_console parsed) _
          (without_console-IsSensor parsed)
          λ rest h.
            All-if IsSensor c z rest
              (λ (plain : c ≡ false). IsSensor-of_is_console z (e ∙ ap ok plain)) h

pub Ensures-zones : (env : Env) (w : World) → Ensures (All IsSensor) (zones env false w).0
unfolding zones
Ensures-zones env w = Ensures-then (All IsSensor) (asked.0) _ asked.1 λ payload.
    Ensures-then (All IsSensor) (list_of payload) _ asked.1 λ entries.
      Ensures-then (All IsSensor) (map_result (zone env.repr) entries) _ asked.1
        λ parsed. without_console-IsSensor parsed
  where
    asked : Result Json × World
    asked = request env (codes "GET") (codes "/api/v1/zones") none none w

-- What `zones` returns without the console: every zone has an id other than `0` and a name that is a
-- text, and not `console` in any case or with blanks around it.
pub zones-IsSensor :
    (env : Env) (w : World) (zs : List Zone) → (zones env false w).0 ≡ ok zs → All IsSensor zs
zones-IsSensor env w zs e =
    Ensures-at (All IsSensor) (zones env false w).0 zs e (Ensures-zones env w)
