-- ===== src/Gc3/Coordinator/Reloads.antt =====
-- The repair issues after a reload of the entry, whose new coordinator starts with no zone reported.
use mathlib.Core.List.{foldl}
use homeassistant_2gig_gc.Prelude.{
  ◌≡◌, refl, ap, ◌∙◌, true, false, ◌&&◌, List, [], ◌∷◌, Text, text_Eq, ◌==◌, contains,
  contains-discard, contains-diff, diff, All, get, or_default, arith,
}
use homeassistant_2gig_gc.Python.Json.{Json}
use homeassistant_2gig_gc.Pygc3.Models.{Zone}
use homeassistant_2gig_gc.Pygc3.Client.{World}
use homeassistant_2gig_gc.Gc3.Const.{ConfigEntry}
use homeassistant_2gig_gc.Gc3.Coordinator.{
  Supervision, misses_of, issue_id, clear_issue, count_miss, judge, visit, zone_ids,
  update_supervision_issues, new_coordinator,
}
use homeassistant_2gig_gc.Gc3.Coordinator.Streaks.{
  is_lost, misses-count_miss, misses-judge, reported-judge, reported-count_miss,
}
use homeassistant_2gig_gc.Gc3.Coordinator.Outages.{updates}
use homeassistant_2gig_gc.Gc3.Coordinator.Registry.{
  stands_from, stands_from-create, stands_from-delete, issue_id_inj,
}

module _ (entry_id i : Text) where
  -- An issue of the zone that stood before still stands, and the coordinator has not reported the zone.
  record IsStale (s : Supervision) : Type 0 where
    untouched : stands_from true s.issues (issue_id entry_id i) ≡ true
    unreported : contains s.reported i ≡ false
    heard : misses_of s i ≡ 0

  clear_issue-IsStale :
      (s : Supervision) (a : Text)
      → (a == i) ≡ false
      → IsStale s
      → IsStale (clear_issue entry_id s a)
  unfolding clear_issue
  clear_issue-IsStale s a other h = record {
    untouched = ground (
      arith,
      h.untouched,
      other,
      stands_from-delete true s.issues (issue_id entry_id a) (issue_id entry_id i),
      issue_id_inj entry_id a i,
    );
    unreported = ground (arith, contains-discard s.reported a i, h.unreported);
    heard = h.heard;
  }

  issues-judge :
      (s : Supervision) (z : Zone)
      → IsStale s
      → stands_from true (judge entry_id s z).issues (issue_id entry_id i) ≡ true
  unfolding judge clear_issue
  issues-judge s z h = ground (
    arith,
    h.untouched,
    h.unreported,
    h.heard,
    stands_from-create true s.issues (issue_id entry_id z.id) (issue_id entry_id i) z.name,
    stands_from-delete true s.issues (issue_id entry_id z.id) (issue_id entry_id i),
    issue_id_inj entry_id z.id i,
    text_Eq.beq_iff z.id i,
  )

  judge-IsStale : (s : Supervision) (z : Zone) → IsStale s → IsStale (judge entry_id s z)
  judge-IsStale s z h = record {
    untouched = issues-judge s z h;
    unreported = ground (arith, reported-judge entry_id s z i, h.unreported, h.heard);
    heard = ap (λ d. or_default (get d i) 0) (misses-judge entry_id s z) ∙ h.heard;
  }

  issues-count_miss : (s : Supervision) (z : Zone) → (count_miss s z).issues ≡ s.issues
  unfolding count_miss
  issues-count_miss s z = ground arith

  count_miss-IsStale :
      (s : Supervision) (z : Zone)
      → (z.id == i && z.status.loss_of_supervision) ≡ false
      → IsStale s
      → IsStale (count_miss s z)
  count_miss-IsStale s z kept h = record {
    untouched =
        ap (λ calls. stands_from true calls (issue_id entry_id i)) (issues-count_miss s z)
        ∙ h.untouched;
    unreported = ap (λ l. contains l i) (reported-count_miss entry_id s z) ∙ h.unreported;
    heard = ground (arith, misses-count_miss entry_id s z i, kept, h.heard);
  }

  visits-IsStale :
      (s : Supervision) (zones : List Zone)
      → is_lost zones i ≡ false
      → IsStale s
      → IsStale (foldl (visit entry_id) s zones)
  unfolding visit
  visits-IsStale s [] kept h = h
  visits-IsStale s (z ∷ zs) kept h =
      visits-IsStale (visit entry_id s z) zs (ground (arith, kept))
        (judge-IsStale (count_miss s z) z (count_miss-IsStale s z (ground (arith, kept)) h))

  clears-IsStale :
      (s : Supervision) (ids : List Text)
      → contains ids i ≡ false
      → IsStale s
      → IsStale (foldl (clear_issue entry_id) s ids)
  unfolding contains
  clears-IsStale s [] absent h = h
  clears-IsStale s (a ∷ ids) absent h =
      clears-IsStale (clear_issue entry_id s a) ids (ground (arith, absent))
        (clear_issue-IsStale s a (ground (arith, absent)) h)

  update-IsStale :
      (s : Supervision) (zones : List Zone)
      → is_lost zones i ≡ false
      → IsStale s
      → IsStale (update_supervision_issues entry_id zones s)
  unfolding update_supervision_issues
  update-IsStale s zones kept h =
      let seen = visits-IsStale s zones kept h in
      let visited = foldl (visit entry_id) s zones in
      clears-IsStale visited (diff visited.reported (zone_ids zones))
        (ground (arith, contains-diff visited.reported (zone_ids zones) i, seen.unreported)) seen

  updates-IsStale :
      (s : Supervision) (polls : List (List Zone))
      → All (λ zones. is_lost zones i ≡ false) polls
      → IsStale s
      → IsStale (updates entry_id s polls)
  updates-IsStale s [] kept h = h
  updates-IsStale s (zones ∷ polls) kept h =
      updates-IsStale (update_supervision_issues entry_id zones s) polls kept.1
        (update-IsStale s zones kept.0 h)

-- A coordinator that a reload creates never closes the repair issue that an earlier one left open for a
-- zone, in any number of polls none of which finds the zone lost, whether they list it or not.
pub reload-leaves_issue :
    (entry : ConfigEntry) (w : World) (poll_interval : Json) (i : Text) (polls : List (List Zone))
    → All (λ zones. is_lost zones i ≡ false) polls
    → stands_from true
        (updates entry.entry_id (new_coordinator entry w poll_interval).supervision polls).issues
        (issue_id entry.entry_id i)
      ≡ true
unfolding new_coordinator contains get
reload-leaves_issue entry w poll_interval i polls kept =
    (updates-IsStale entry.entry_id i (new_coordinator entry w poll_interval).supervision polls kept
      (record { untouched = refl; unreported = refl; heard = refl })).untouched
