-- ===== src/Witnesses/Polls.antt =====
-- Polls and the supervision bookkeeping at concrete inputs.
use mathlib.Core.List.Perm
use homeassistant_2gig_gc.Prelude.{
  IsDistinct, lower, strip, some, none, ◌≡◌, refl, ◌+◌, true, false, List, [], ◌∷◌, Text, codes,
  text_Eq, contains, leb, length, text_eq, get, All, ends_with,
}
use homeassistant_2gig_gc.Python.Json.{get_field, str_of}
use homeassistant_2gig_gc.Pygc3.Models.{Zone, as_bool}
use homeassistant_2gig_gc.Gc3.Coordinator.{
  Supervision, zone_ids, update_data, misses_of, update_supervision_issues,
  supervision_failures_before_repair,
}
use homeassistant_2gig_gc.Gc3.Coordinator.Outages.{
  IsLoss, IsContact, updates, outage-reported, gap_keeps_count,
}
use homeassistant_2gig_gc.Gc3.Coordinator.Registry.{Mirrors, update-Mirrors}
use homeassistant_2gig_gc.Gc3.Coordinator.Monitor.{monitor_of}
use homeassistant_2gig_gc.Gc3.Coordinator.Reordering.{updates-any_order}
use homeassistant_2gig_gc.Gc3.Coordinator.Polling.{Outcome, update_data-Outcome}
use homeassistant_2gig_gc.Pygc3.Client.{items, request_of, ensure_session, status, request}
use homeassistant_2gig_gc.Pygc3.Parsing.{IsEntry}
use homeassistant_2gig_gc.Gc3.BinarySensor.{HealthDescription, problem}
use homeassistant_2gig_gc.Gc3.Displays.{Shows, poll-Shows, wire_open, sensors}
use homeassistant_2gig_gc.Gc3.Coordinator.Snapshots.{IsAnswered, Snapshot, poll-Snapshot}
use homeassistant_2gig_gc.Python.Json.{get_field}
use homeassistant_2gig_gc.Witnesses.Fixtures.{
  armed_env, some_coordinator, some_world, no_supervision, a_zone, front_door, hall_motion,
  two_zones, zone_entries, status_fields,
}

abbrev two : Text
two = codes "2"

abbrev once : Supervision
once = update_supervision_issues (codes "e") two_zones no_supervision

nothing_absent : (i : Text) → contains [] i ≡ false
unfolding contains
nothing_absent i = refl

-- The same zones, heard from.
abbrev heard : List Zone
heard = front_door ∷ a_zone two (codes "Hall Motion") false false ∷ []

heard-IsContact : IsContact two heard
unfolding contains text_eq
heard-IsContact = record { distinct = (refl, (refl, tt)); listed = refl; heard = refl }

two_zones-IsLoss : IsLoss two two_zones
unfolding contains text_eq
two_zones-IsLoss = record { distinct = (refl, (refl, tt)); lost = refl }

abbrev two_losses : List (List Zone)
two_losses = two_zones ∷ two_zones ∷ []

outage-reported_example :
    contains (updates (codes "e") once (heard ∷ two_losses)).reported two
    ≡ leb supervision_failures_before_repair (length two_losses)
outage-reported_example =
    outage-reported (codes "e") two once heard two_losses heard-IsContact
      (two_zones-IsLoss, (two_zones-IsLoss, tt))

-- One miss short of the threshold.
abbrev short : Supervision
short = record { misses = (two, 19) ∷ []; reported = []; issues = [] }

gap_keeps_count_example :
    contains (updates (codes "e") short ((front_door ∷ []) ∷ two_zones ∷ [])).reported two ≡ true
unfolding get text_eq contains
gap_keeps_count_example =
    gap_keeps_count (codes "e") two short (front_door ∷ []) two_zones short-one
      (nothing_absent (codes "1"), tt) gone two_zones-IsLoss
  where
    short-one : misses_of short two + 1 ≡ supervision_failures_before_repair
    short-one = refl

    gone : contains (codes "1" ∷ []) two ≡ false
    gone = refl

update-Mirrors_example : Mirrors (codes "e") once
unfolding contains
update-Mirrors_example = update-Mirrors (codes "e") two_zones no_supervision (λ i. refl)

update_data-Outcome_example :
    Outcome some_coordinator
      (update_data armed_env some_coordinator).0
      (update_data armed_env some_coordinator).1
update_data-Outcome_example = update_data-Outcome armed_env some_coordinator

three_entries : All IsEntry (items zone_entries)
unfolding get_field text_eq
three_entries = ((tt, tt, tt), ((tt, tt, tt), ((tt, tt, tt), tt)))

armed-IsAnswered : IsAnswered armed_env some_world status_fields zone_entries
unfolding ends_with request_of ensure_session status request
armed-IsAnswered = record { status = refl; zones = refl; entry = three_entries }

poll-Snapshot_example :
    Snapshot armed_env.repr status_fields
      (items zone_entries)
      (update_data armed_env some_coordinator).0
poll-Snapshot_example =
    poll-Snapshot armed_env some_coordinator status_fields zone_entries armed-IsAnswered

-- The two zones, the other way round in the second run.
abbrev reversed_zones : List Zone
reversed_zones = hall_motion ∷ front_door ∷ []

once-IsDistinct : All (λ zones. IsDistinct (zone_ids zones)) (two_zones ∷ two_zones ∷ [])
unfolding contains text_eq
once-IsDistinct = ((refl, (refl, tt)), ((refl, (refl, tt)), tt))

nothing_stands : Mirrors (codes "e") no_supervision
unfolding contains
nothing_stands i = refl

updates-any_order_example :
    monitor_of (codes "e") (updates (codes "e") no_supervision (two_zones ∷ two_zones ∷ []))
    ≡ monitor_of (codes "e") (updates (codes "e") no_supervision (reversed_zones ∷ two_zones ∷ []))
updates-any_order_example =
    updates-any_order (codes "e") no_supervision (two_zones ∷ two_zones ∷ [])
      (reversed_zones ∷ two_zones ∷ []) nothing_stands once-IsDistinct
      (Perm.swap hall_motion front_door [], (Perm.refl two_zones, tt))

abbrev lost_health : HealthDescription
lost_health = record {
  key = codes "supervision_lost";
  device_class = problem;
  flag = λ s. s.loss_of_supervision;
}

poll-Shows_example :
    Shows armed_env.repr status_fields zone_entries
      (codes "2")
      lost_health
      false
      (update_data armed_env some_coordinator).0
      (update_data armed_env some_coordinator).1
poll-Shows_example =
    poll-Shows armed_env some_coordinator status_fields zone_entries (codes "2") lost_health
      armed-IsAnswered

hall_open :
    wire_open armed_env.repr (codes "2") none (sensors armed_env.repr zone_entries) ≡ some true
unfolding get_field text_eq str_of as_bool lower strip
hall_open = refl
