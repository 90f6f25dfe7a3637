-- ===== src/Gc3/Coordinator/Monitor.antt =====
-- The supervision bookkeeping against a monitor that keeps two functions of the zone.
use mathlib.Core.Path.{fun_ext}
use homeassistant_2gig_gc.Prelude.{
  ℕ, ◌+◌, ◌≡◌, ap, ◌∙◌, Bool, ◌&&◌, List, [], ◌∷◌, Text, text_Eq, contains, IsDistinct, leb,
  if◌then◌else◌,
}
use homeassistant_2gig_gc.Pygc3.Models.{Zone}
use homeassistant_2gig_gc.Gc3.Coordinator.{
  Supervision, misses_of, issue_id, zone_ids, update_supervision_issues,
  supervision_failures_before_repair,
}
use homeassistant_2gig_gc.Gc3.Coordinator.Streaks.{is_lost, reported-update, counter-update}
use homeassistant_2gig_gc.Gc3.Coordinator.Registry.{Mirrors, stands, update-Mirrors}

-- For every zone: in how many polls in a row it was lost, and whether its repair issue is open.
pub record Monitor : Type 0 where
  pub streak : Text → ℕ
  pub is_open : Text → Bool

abbrev streak_after : (Text → Bool) → (Text → Bool) → Monitor → Text → ℕ
streak_after listed lost m i = if listed i then if lost i then m.streak i + 1 else 0 else m.streak i

-- A poll that lists a zone counts it or sets it back, and its issue is open from 20 misses on. The
-- issue of a zone that a poll does not list is closed, and its count stands still.
abbrev pub watch_by : (Text → Bool) → (Text → Bool) → Monitor → Monitor
watch_by listed lost m = record {
  streak = streak_after listed lost m;
  is_open = λ i. listed i && leb supervision_failures_before_repair (streak_after listed lost m i);
}

abbrev pub watch : List Zone → Monitor → Monitor
watch zones m = watch_by (contains (zone_ids zones)) (is_lost zones) m

-- After polls, the last of them first.
abbrev pub watch_all : Monitor → List (List Zone) → Monitor
watch_all m [] = m
watch_all m (zones ∷ earlier) = watch zones (watch_all m earlier)

module _ (entry_id : Text) where
  -- The counters, and the issues that stand in the registry.
  abbrev pub monitor_of : Supervision → Monitor
  monitor_of s = record {
    streak = misses_of s;
    is_open = λ i. stands s.issues (issue_id entry_id i);
  }

  -- One update is one step of the monitor.
  pub update_refines :
      (zones : List Zone) (s : Supervision)
      → Mirrors entry_id s
      → IsDistinct (zone_ids zones)
      → monitor_of (update_supervision_issues entry_id zones s) ≡ watch zones (monitor_of s)
  update_refines zones s h distinct =
      let s' = update_supervision_issues entry_id zones s in
      let counted : misses_of s' ≡ (watch zones (monitor_of s)).streak =
        fun_ext (λ i. counter-update entry_id zones s i distinct) in
      let shown : (λ i. stands s'.issues (issue_id entry_id i))
          ≡ (watch zones (monitor_of s)).is_open =
        fun_ext λ i.
          update-Mirrors entry_id zones s h i
          ∙ reported-update entry_id zones s i
          ∙ ap
              (λ (f : Text → ℕ).
                contains (zone_ids zones) i && leb supervision_failures_before_repair (f i))
              counted in
      cc (counted, shown)
