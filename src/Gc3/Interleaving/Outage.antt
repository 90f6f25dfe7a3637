-- ===== src/Gc3/Interleaving/Outage.antt =====
-- A zone that stays lost gets its repair issue, whatever comes between the polls.
use homeassistant_2gig_gc.Prelude.{
  ◌≤◌, ◌≡◌, ap, ◌∙◌, true, inl, inr, List, [], ◌∷◌, ◌++◌, All, IsDistinct, Text, text_Eq, contains,
  length, arith, Bool-cases,
}
use homeassistant_2gig_gc.Pygc3.Models.{Zone}
use homeassistant_2gig_gc.Pygc3.Client.{Env}
use homeassistant_2gig_gc.Gc3.Coordinator.{
  Coordinator, zone_ids, issue_id, supervision_failures_before_repair,
}
use homeassistant_2gig_gc.Gc3.Coordinator.Registry.{Mirrors, stands}
use homeassistant_2gig_gc.Gc3.Coordinator.Streaks.{is_lost, lost-listed}
use homeassistant_2gig_gc.Gc3.Coordinator.Monitor.{Monitor, watch_all}
use homeassistant_2gig_gc.Gc3.Interleaving.{Phase, Run}
use homeassistant_2gig_gc.Gc3.Interleaving.Races.{Run_refines}

listed-of_lost :
    (zones : List Zone) (i : Text) → is_lost zones i ≡ true → contains (zone_ids zones) i ≡ true
listed-of_lost zones i lost = elim (Bool-cases (contains (zone_ids zones) i)) [
  | inl listed ↦ listed
  | inr absent ↦ absurd (cc (lost, lost-listed zones i absent))
]

-- Polls in which the zone is lost are counted.
streak-lost :
    (m : Monitor) (recent earlier : List (List Zone)) (i : Text)
    → All (λ zones. is_lost zones i ≡ true) recent
    → length recent ≤ (watch_all m (recent ++ earlier)).streak i
streak-lost m [] earlier i h = omega arith
streak-lost m (zones ∷ recent) earlier i (lost, h) =
    ground (arith, lost, listed-of_lost zones i lost, streak-lost m recent earlier i h)

open-lost :
    (m : Monitor) (recent earlier : List (List Zone)) (i : Text)
    → supervision_failures_before_repair ≤ length recent
    → All (λ zones. is_lost zones i ≡ true) recent
    → (watch_all m (recent ++ earlier)).is_open i ≡ true
open-lost m [] earlier i long h = absurd (omega arith)
open-lost m (zones ∷ recent) earlier i long (lost, h) =
    ground
      (arith, long, listed-of_lost zones i lost, streak-lost m (zones ∷ recent) earlier i (lost, h))

-- In any order of the requests of polls and of service calls, with any answers of the panel, from a state
-- in which the issue of each zone stands exactly while the zone is reported: once the last 20 polls that
-- succeeded, or more, all found a zone lost, its repair issue is open, whatever was counted before, where
-- no poll that succeeded lists an id twice.
pub Run-opens_issue :
    {env : Env} {c d : Coordinator} {phase : Phase} (recent earlier : List (List Zone)) (i : Text)
    → Run env c (recent ++ earlier) phase d
    → Mirrors c.entry.entry_id c.supervision
    → All (λ zones. IsDistinct (zone_ids zones)) (recent ++ earlier)
    → supervision_failures_before_repair ≤ length recent
    → All (λ zones. is_lost zones i ≡ true) recent
    → stands d.supervision.issues (issue_id c.entry.entry_id i) ≡ true
Run-opens_issue recent earlier i run m apart long h =
    ap (λ (m : Monitor). m.is_open i) (Run_refines run m apart)
    ∙ open-lost _ recent earlier i long h
