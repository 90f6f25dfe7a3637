-- ===== src/Gc3/Displays.antt =====
-- From what the panel answers to what the entities of custom_components/gc3 show.
use mathlib.Core.Option
use homeassistant_2gig_gc.Prelude.{
  ◌≡◌, refl, sym, ap, ◌∙◌, Bool, true, false, not, Option, none, some, List, [], ◌∷◌, map, filter,
  any, All, Text, codes, text_Eq, ◌==◌, if◌then◌else◌,
}
use homeassistant_2gig_gc.Python.Effects.{
  Result, ok, raised, map_result, Ensures, Ensures-self, Ensures-bind, Ensures-then,
  Ensures-continue, Ensures-at,
}
use homeassistant_2gig_gc.Python.Json.{Json, Fields, Items}
use homeassistant_2gig_gc.Pygc3.Models.{PanelStatus, Zone, ZoneStatus, zone, is_console}
use homeassistant_2gig_gc.Pygc3.Client
use homeassistant_2gig_gc.Pygc3.Client.{Env, World, without_console, items, list_of}
use homeassistant_2gig_gc.Pygc3.Parsing.{console_entry, entries-Listed}
use homeassistant_2gig_gc.Pygc3.Wire.{Reads, zone-Reads, wire_id, wire_status, wire_word, wire_stay}
use homeassistant_2gig_gc.Gc3.Coordinator.{
  Coordinator, Gc3Data, AlarmState, is_idle, any_in_alarm, map_alarm_state, alarm_state,
  update_data, fetch, new_data, absorb,
}
use homeassistant_2gig_gc.Gc3.Coordinator.Snapshots.{
  IsAnswered, Holds, status-answered, zones-answered,
}
use homeassistant_2gig_gc.Gc3.Coordinator.States.{Tells, map_alarm_state-Tells}
use homeassistant_2gig_gc.Gc3.BinarySensor.{zone_is_on, HealthDescription, health_is_on}
use homeassistant_2gig_gc.Gc3.BinarySensor.Entities.{last_zone, zone_is_on-last, health_is_on-any}

map_result-Reads :
    (repr : Json → Text) (vs : List Json) → Ensures (All (Reads repr)) (map_result (zone repr) vs)
unfolding map_result
map_result-Reads repr [] = tt
map_result-Reads repr (v ∷ vs) =
    Ensures-bind (λ z. zone repr v ≡ ok z) (All (Reads repr)) (zone repr v) _
      (Ensures-self (zone repr v))
      λ z e.
        Ensures-bind (All (Reads repr)) (All (Reads repr)) (map_result (zone repr) vs) _
          (map_result-Reads repr vs) λ zs h. (zone-Reads repr v z e, h)

All-unless :
    (P : Zone → Type 0) (b : Bool) (z : Zone) (zs : List Zone)
    → P z
    → All P zs
    → All P (if b then zs else z ∷ zs)
All-unless P true z zs h hs = hs
All-unless P false z zs h hs = (h, hs)

without_console-All :
    (P : Zone → Type 0) (parsed : List Zone)
    → All P parsed
    → Ensures (All P) (without_console parsed)
unfolding without_console
without_console-All P [] h = tt
without_console-All P (z ∷ zs) (h, hs) =
    Ensures-bind (λ b. is_console z ≡ ok b) (All P) (is_console z) _ (Ensures-self (is_console z))
      λ b e.
        Ensures-bind (All P) (All P) (without_console zs) _ (without_console-All P zs hs)
          λ rest k. All-unless P b z rest h k

zones-Reads : (env : Env) (w : World) → Ensures (All (Reads env.repr)) (Client.zones env false w).0
unfolding Client.zones
zones-Reads env w =
    let asked = Client.request env (codes "GET") (codes "/api/v1/zones") none none w in
    Ensures-then (All (Reads env.repr)) asked.0 _ asked.1 λ payload.
      Ensures-then (All (Reads env.repr)) (list_of payload) _ asked.1 λ entries.
        Ensures-continue (All (Reads env.repr)) (All (Reads env.repr))
          (map_result (zone env.repr) entries) _ asked.1 (map_result-Reads env.repr entries)
          λ parsed h. without_console-All (Reads env.repr) parsed h

-- Whether the zone is open by the last entry of that id, if there is one.
abbrev pub wire_open : (Json → Text) → Text → Option Bool → List Json → Option Bool
wire_open repr i found [] = found
wire_open repr i found (v ∷ vs) =
    wire_open repr i (if wire_id repr v == i then some (wire_status v).is_open else found) vs

open-step :
    (b : Bool) (z : Zone) (found : Option Zone)
    → Option.map (λ z. z.status.is_open) (if b then some z else found)
      ≡ (if b then some z.status.is_open else Option.map (λ z. z.status.is_open) found)
open-step true z found = refl
open-step false z found = refl

open-wire :
    (repr : Json → Text) (i : Text) (found : Option Zone) (zones : List Zone)
    → All (Reads repr) zones
    → Option.map (λ z. z.status.is_open) (last_zone found zones i)
      ≡ wire_open repr i (Option.map (λ z. z.status.is_open) found) (map (λ z. z.raw) zones)
open-wire repr i found [] h = refl
open-wire repr i found (z ∷ zs) (h, hs) =
    open-wire repr i (if z.id == i then some z else found) zs hs
    ∙ ap (λ o. wire_open repr i o (map (λ z. z.raw) zs))
        (open-step (z.id == i) z found ∙ rw (h.0, h.1) refl)

any-wire :
    (repr : Json → Text) (flag : ZoneStatus → Bool) (zones : List Zone)
    → All (Reads repr) zones
    → any (λ z. flag z.status) zones ≡ any (λ v. flag (wire_status v)) (map (λ z. z.raw) zones)
any-wire repr flag [] h = refl
any-wire repr flag (z ∷ zs) (h, hs) = rw (h.1, any-wire repr flag zs hs) refl

-- The entries of a poll that are not the console's.
abbrev pub sensors : (Json → Text) → Items → List Json
sensors repr entries = filter (λ v. not (console_entry repr v)) (items entries)

module _ (repr : Json → Text) (fields : Fields) (entries : Items) (i : Text)
    (health : HealthDescription) (night : Bool) where
  -- What the entities show on the snapshot of a poll, by the fields and the entries that the panel sent, and
  -- the night flag before the poll.
  abbrev pub Shows : Result Gc3Data → Coordinator → Type 0
  Shows (ok d) c =
      let shown = record c { last = some d } in
      (zone_is_on shown i ≡ wire_open repr i none (sensors repr entries))
      × (health_is_on health shown
          ≡ some (any (λ v. health.flag (wire_status v)) (sensors repr entries)))
      × (state : AlarmState) × (alarm_state shown ≡ some state)
      × Tells (any (λ v. (wire_status v).in_alarm) (sensors repr entries)) (wire_word repr fields)
          (wire_stay fields) night state
  Shows (raised e) c = ⊥

  snapshot-Shows :
      (status : PanelStatus) (zones : List Zone) (c : Coordinator)
      → All (Reads repr) zones
      → map (λ z. z.raw) zones ≡ sensors repr entries
      → Holds repr fields status
      → c.armed_night ≡ (if is_idle status then false else night)
      → Shows (ok (new_data status zones)) c
  unfolding new_data alarm_state
  snapshot-Shows status zones c h raws held flag = (
    zone_is_on-last status zones c i
        ∙ open-wire repr i none zones h
        ∙ ap (wire_open repr i none) raws,
    (health_is_on-any status zones c health).0
        ∙ ap some (any-wire repr health.flag zones h)
        ∙ ap (λ vs. some (any (λ v. health.flag (wire_status v)) vs)) raws,
    map_alarm_state status zones c.armed_night,
    refl,
    told,
  )
    where
      alarms : any_in_alarm zones ≡ any (λ v. (wire_status v).in_alarm) (sensors repr entries)
      alarms =
          any-wire repr (λ s. s.in_alarm) zones h ∙ ap (any (λ v. (wire_status v).in_alarm)) raws

      told :
          Tells
            (any (λ v. (wire_status v).in_alarm) (sensors repr entries))
            (wire_word repr fields)
            (wire_stay fields)
            night
            (map_alarm_state status zones c.armed_night)
      told =
          rw (flag, sym alarms, sym held.word, sym held.stay)
            (map_alarm_state-Tells status zones night)

-- When the panel answers both requests of a poll well, the entities show what it says, the console's
-- entries left out: a zone sensor the flag of the last entry of its id, and nothing where there is none; a
-- health sensor whether some entry raises its flag; and the alarm panel a state by the `armState` of the
-- status answer in lower case and its `isArmedStay`. That is `triggered` when some entry is in alarm or the
-- word contains "alarm"; else, for "armed", `armed_away` without the stay flag, and with it
-- `armed_night` or `armed_home` as the night flag was set before the poll or not; `arming` for
-- "arming"; and `disarmed` for every other word.
pub poll-Shows :
    (env : Env) (c : Coordinator) (fields : Fields) (entries : Items) (i : Text)
    (health : HealthDescription)
    → IsAnswered env c.world fields entries
    → Shows env.repr fields entries i health c.armed_night
        (update_data env c).0
        (update_data env c).1
unfolding update_data fetch absorb
poll-Shows env c fields entries i health h =
    let w = (Client.status env c.world).1 in
    let (s, told, held) = status-answered env c.world fields h.status in
    let (kept, listed, raws) =
      zones-answered env w entries (sensors env.repr entries) h.zones
        (entries-Listed env.repr (items entries) h.entry) in
    let read =
      Ensures-at (All (Reads env.repr)) (Client.zones env false w).0 kept listed
        (zones-Reads env w) in
    let after = absorb s kept (record c { world = (Client.zones env false w).1 }) in
    rw (told, listed)
      (snapshot-Shows env.repr fields entries i health c.armed_night s kept after read raws held
        refl)
