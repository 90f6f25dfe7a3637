-- ===== src/Gc3/Coordinator/Tracking.antt =====
-- The supervision bookkeeping of custom_components/gc3/coordinator.py: `_update_supervision_issues`,
-- `_clear_supervision_issue` and `_supervision_issue_id`. The issue registry of Home Assistant is
-- the list of the calls made of it.
use mathlib.Core.List.{foldl}
use homeassistant_2gig_gc.Prelude.{
  ℕ, ◌+◌, not, ◌&&◌, List, [], ◌∷◌, ◌++◌, map, Text, codes, text_Eq, Dict, get, put, pop,
  or_default, contains, discard, diff, leb, if◌then◌else◌,
}
use homeassistant_2gig_gc.Python.Json.{Json}
use homeassistant_2gig_gc.Pygc3.Models.{Zone}

abbrev pub supervision_failures_before_repair : ℕ
supervision_failures_before_repair = 20

-- `ir.async_create_issue` with the name of the zone as its placeholder, `ir.async_delete_issue`.
pub data IssueCall : Type 0 where
  create : Text → Json → IssueCall
  delete : Text → IssueCall

pub record Supervision : Type 0 where
  pub misses : Dict Text ℕ
  pub reported : List Text
  pub issues : List IssueCall

-- The polls in a row, up to the last one, in which a zone was lost.
abbrev pub misses_of : Supervision → Text → ℕ
misses_of s zone_id = or_default (get s.misses zone_id) 0

-- `_supervision_issue_id`
unfoldable pub issue_id : Text → Text → Text
issue_id entry_id zone_id = entry_id ++ codes "_supervision_" ++ zone_id

-- `_clear_supervision_issue`
unfoldable pub clear_issue : Text → Supervision → Text → Supervision
clear_issue entry_id s zone_id = record s {
  reported = discard s.reported zone_id;
  issues = s.issues ++ delete (issue_id entry_id zone_id) ∷ [];
}

-- The counter of one zone: one more miss, or none any more.
unfoldable pub count_miss : Supervision → Zone → Supervision
count_miss s z =
    if z.status.loss_of_supervision
    then record s { misses = put s.misses z.id (misses_of s z.id + 1) }
    else record s { misses = pop s.misses z.id }

-- The issue of one zone, raised or cleared by its counter.
unfoldable pub judge : Text → Supervision → Zone → Supervision
unfolding clear_issue
judge entry_id s z =
    let over_threshold = leb supervision_failures_before_repair (misses_of s z.id) in
    if over_threshold && not (contains s.reported z.id)
    then record s {
      reported = z.id ∷ s.reported;
      issues = s.issues ++ create (issue_id entry_id z.id) z.name ∷ [];
    }
    else if not over_threshold && contains s.reported z.id
    then clear_issue entry_id s z.id
    else s

-- The body of the loop over the zones.
unfoldable pub visit : Text → Supervision → Zone → Supervision
unfolding count_miss judge
visit entry_id s z = judge entry_id (count_miss s z) z

abbrev pub zone_ids : List Zone → List Text
zone_ids = map (λ z. z.id)

-- `_update_supervision_issues`
unfoldable pub update_supervision_issues : Text → List Zone → Supervision → Supervision
update_supervision_issues entry_id zones s =
    let visited = foldl (visit entry_id) s zones in
    foldl (clear_issue entry_id) visited (diff visited.reported (zone_ids zones))
