-- ===== src/Gc3/Coordinator/Registry.antt =====
-- The repair issues that stand in the registry of Home Assistant follow the set of reported zones.
use mathlib.Core.List.{foldl}
use homeassistant_2gig_gc.Prelude.{
  ◌≡◌, refl, Bool, false, not, ◌&&◌, ◌||◌, List, [], ◌∷◌, ◌++◌, Text, text_Eq, text_eq-append_left,
  codes, ◌==◌, contains, contains-discard, diff, arith,
}
use homeassistant_2gig_gc.Pygc3.Models.{Zone}
use homeassistant_2gig_gc.Gc3.Coordinator.{
  IssueCall, create, delete, Supervision, issue_id, clear_issue, count_miss, judge, visit, zone_ids,
  update_supervision_issues,
}

-- Whether an issue stands after the calls: whether the last one for its id created it.
abbrev pub stands_from : Bool → List IssueCall → Text → Bool
stands_from before [] i = before
stands_from before (create j name ∷ calls) i = stands_from (j == i || before) calls i
stands_from before (delete j ∷ calls) i = stands_from (not (j == i) && before) calls i

abbrev pub stands : List IssueCall → Text → Bool
stands = stands_from false

pub stands_from-create :
    (b : Bool) (calls : List IssueCall) (j i : Text) (name : _)
    → stands_from b (calls ++ create j name ∷ []) i ≡ (j == i || stands_from b calls i)
stands_from-create b [] j i name = refl
stands_from-create b (create k n ∷ calls) j i name = stands_from-create (k == i || b) calls j i name
stands_from-create b (delete k ∷ calls) j i name =
    stands_from-create (not (k == i) && b) calls j i name

pub stands_from-delete :
    (b : Bool) (calls : List IssueCall) (j i : Text)
    → stands_from b (calls ++ delete j ∷ []) i ≡ (not (j == i) && stands_from b calls i)
stands_from-delete b [] j i = refl
stands_from-delete b (create k n ∷ calls) j i = stands_from-delete (k == i || b) calls j i
stands_from-delete b (delete k ∷ calls) j i = stands_from-delete (not (k == i) && b) calls j i

-- Different zones have different issues.
pub issue_id_inj : (entry_id a b : Text) → (issue_id entry_id a == issue_id entry_id b) ≡ (a == b)
unfolding issue_id
issue_id_inj entry_id a b = text_eq-append_left (entry_id ++ codes "_supervision_") a b

module _ (entry_id : Text) where
  -- The issue of each zone stands exactly while the zone is reported.
  abbrev pub Mirrors : Supervision → Type 0
  Mirrors s = (i : Text) → stands s.issues (issue_id entry_id i) ≡ contains s.reported i

  clear_issue-Mirrors :
      (s : Supervision) (a : Text) → Mirrors s → Mirrors (clear_issue entry_id s a)
  unfolding clear_issue
  clear_issue-Mirrors s a h i = ground (
    arith,
    h i,
    stands_from-delete false s.issues (issue_id entry_id a) (issue_id entry_id i),
    issue_id_inj entry_id a i,
    contains-discard s.reported a i,
  )

  judge-Mirrors : (s : Supervision) (z : Zone) → Mirrors s → Mirrors (judge entry_id s z)
  unfolding judge contains
  judge-Mirrors s z h i = ground (
    arith,
    h i,
    stands_from-create false s.issues (issue_id entry_id z.id) (issue_id entry_id i) z.name,
    stands_from-delete false s.issues (issue_id entry_id z.id) (issue_id entry_id i),
    issue_id_inj entry_id z.id i,
    contains-discard s.reported z.id i,
  )

  visit-Mirrors : (s : Supervision) (z : Zone) → Mirrors s → Mirrors (visit entry_id s z)
  unfolding visit count_miss
  visit-Mirrors s z h = judge-Mirrors (count_miss s z) z (λ i. ground (arith, h i))

  visits-Mirrors :
      (s : Supervision) (zones : List Zone) → Mirrors s → Mirrors (foldl (visit entry_id) s zones)
  visits-Mirrors s [] h = h
  visits-Mirrors s (z ∷ zs) h = visits-Mirrors (visit entry_id s z) zs (visit-Mirrors s z h)

  clears-Mirrors :
      (s : Supervision) (ids : List Text) → Mirrors s → Mirrors (foldl (clear_issue entry_id) s ids)
  clears-Mirrors s [] h = h
  clears-Mirrors s (a ∷ ids) h =
      clears-Mirrors (clear_issue entry_id s a) ids (clear_issue-Mirrors s a h)

  -- Every update keeps the registry and the set of reported zones in step: the issue of a zone
  -- stands exactly while the zone is in the set.
  pub update-Mirrors :
      (zones : List Zone) (s : Supervision)
      → Mirrors s
      → Mirrors (update_supervision_issues entry_id zones s)
  unfolding update_supervision_issues
  update-Mirrors zones s h =
      let visited = foldl (visit entry_id) s zones in
      clears-Mirrors visited (diff visited.reported (zone_ids zones)) (visits-Mirrors s zones h)
