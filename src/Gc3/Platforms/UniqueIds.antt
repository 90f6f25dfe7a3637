-- ===== src/Gc3/Platforms/UniqueIds.antt =====
-- No two entities of an entry share their unique id.
use mathlib.Core.List.{append_assoc}
use mathlib.Core.Path.{ap₂}
use homeassistant_2gig_gc.Prelude.{
  ◌≡◌, refl, sym, ◌∙◌, false, Option, List, [], ◌∷◌, ◌++◌, map, Text, codes, text_Eq, text_eq,
  text_eq-append_left, contains, IsDistinct, arith,
}
use homeassistant_2gig_gc.Gc3.Coordinator.{Coordinator}
use homeassistant_2gig_gc.Gc3.BinarySensor.{
  Platform, no_zones, sync_zones, health_unique_id, zone_unique_id,
}
use homeassistant_2gig_gc.Gc3.BinarySensor.Entities.{polled}
use homeassistant_2gig_gc.Gc3.BinarySensor.Arrivals.{
  listens, listens-IsDistinct, sync_zones-IsDistinct,
}
use homeassistant_2gig_gc.Pygc3.Models.{PanelStatus, Zone}
use homeassistant_2gig_gc.Gc3.Platforms.{
  setup_platforms, unique_ids, new_alarm_panel, open_zones_unique_id,
}

-- Behind a common start, texts are told apart by their ends.
contains-starts :
    (p : Text) (ts : List Text) (t : Text)
    → contains (map (λ s. p ++ s) ts) (p ++ t) ≡ contains ts t
unfolding contains
contains-starts p [] t = refl
contains-starts p (s ∷ ts) t = ground (arith, contains-starts p ts t, text_eq-append_left p s t)

IsDistinct-starts : (p : Text) (ts : List Text) → IsDistinct ts → IsDistinct (map (λ s. p ++ s) ts)
IsDistinct-starts p [] h = tt
IsDistinct-starts p (t ∷ ts) h = (contains-starts p ts t ∙ h.0, IsDistinct-starts p ts h.1)

-- What no text behind a start is, is not among texts behind that start.
contains-other :
    (p : Text) (ts : List Text) (t : Text)
    → ((s : Text) → text_eq (p ++ s) t ≡ false)
    → contains (map (λ s. p ++ s) ts) t ≡ false
unfolding contains
contains-other p [] t h = refl
contains-other p (s ∷ ts) t h = ground (arith, contains-other p ts t h, h s)

-- What stands behind the entry's id and the underscore in the unique ids.
abbrev endings : List Text → List Text
endings known =
    codes "alarm"
    ∷ codes "open_zones"
    ∷ codes "battery_low"
    ∷ codes "tamper"
    ∷ codes "supervision_lost"
    ∷ codes "zones_bypassed"
    ∷ map (λ s. codes "zone_" ++ s) known

endings-IsDistinct : (known : List Text) → IsDistinct known → IsDistinct (endings known)
unfolding contains text_eq
endings-IsDistinct known h =
    let apart : (t : Text)
        → ((s : Text) → text_eq (codes "zone_" ++ s) t ≡ false)
        → contains (map (λ s. codes "zone_" ++ s) known) t ≡ false =
      contains-other (codes "zone_") known in
    (
      apart (codes "alarm") (λ s. refl),
      (
        apart (codes "open_zones") (λ s. refl),
        (
          apart (codes "battery_low") (λ s. refl),
          (
            apart (codes "tamper") (λ s. refl),
            (
              apart (codes "supervision_lost") (λ s. refl),
              (
                apart (codes "zones_bypassed") (λ s. refl),
                IsDistinct-starts (codes "zone_") known h,
              ),
            ),
          ),
        ),
      ),
    )

zone_unique_id-ending :
    (entry_id z : Text)
    → zone_unique_id entry_id z ≡ (entry_id ++ codes "_") ++ (codes "zone_" ++ z)
unfolding zone_unique_id
zone_unique_id-ending entry_id z =
    append_assoc entry_id (codes "_zone_") z
    ∙ sym (append_assoc entry_id (codes "_") (codes "zone_" ++ z))

zone_ids-endings :
    (entry_id : Text) (known : List Text)
    → map (zone_unique_id entry_id) known
      ≡ map (λ s. (entry_id ++ codes "_") ++ s) (map (λ s. codes "zone_" ++ s) known)
zone_ids-endings entry_id [] = refl
zone_ids-endings entry_id (z ∷ known) =
    ap₂ ◌∷◌ (zone_unique_id-ending entry_id z) (zone_ids-endings entry_id known)

-- Whichever zones the listener knows, if it knows none twice, then no two entities of the entry have the
-- same unique id: not two zones, and no zone and a sensor of the panel.
pub unique_ids-IsDistinct :
    (registry : Text → Option Text) (c : Coordinator) (p : Platform)
    → IsDistinct p.known
    → IsDistinct (unique_ids c (record (setup_platforms registry c) { zone_sensors = p }))
unfolding unique_ids setup_platforms new_alarm_panel open_zones_unique_id health_unique_id
unique_ids-IsDistinct registry c p h =
    let id = c.entry.entry_id in
    rw (zone_ids-endings id p.known, sym (append_assoc id (codes "_") (codes "alarm")))
      (IsDistinct-starts (id ++ codes "_") (endings p.known) (endings-IsDistinct p.known h))

-- From the setup of the platforms behind a first poll on, over any run of polls, no two entities of the
-- entry have the same unique id: not two zones, and no zone and a sensor of the panel.
pub live_ids-IsDistinct :
    (registry : Text → Option Text) (c : Coordinator) (status : PanelStatus) (zones : List Zone)
    (polls : List (PanelStatus × List Zone))
    → let c' = polled status zones c in
      let e = setup_platforms registry c' in
      IsDistinct
        (unique_ids c' (record e { zone_sensors = listens registry c e.zone_sensors polls }))
unfolding setup_platforms
live_ids-IsDistinct registry c status zones polls =
    let c' = polled status zones c in
    unique_ids-IsDistinct registry c' (listens registry c (sync_zones registry c' no_zones) polls) (
      listens-IsDistinct registry c (sync_zones registry c' no_zones) polls
        (sync_zones-IsDistinct registry c status zones no_zones tt))
