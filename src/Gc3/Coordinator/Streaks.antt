-- ===== src/Gc3/Coordinator/Streaks.antt =====
-- The supervision counters over one update and over many.
use mathlib.Core.List.{foldl}
use homeassistant_2gig_gc.Prelude.{
  ◌+◌, ◌≡◌, refl, sym, ap, ◌∙◌, Bool, false, not, ◌&&◌, inl, inr, List, [], ◌∷◌, Text, text_Eq,
  ◌==◌, eq_of_==, text_eq_iff, get, get-put, get-pop, or_default, contains, contains-discard, diff,
  contains-diff, IsDistinct, any, leb, arith, Bool-cases, if◌then◌else◌,
}
use homeassistant_2gig_gc.Pygc3.Models.{Zone}
use homeassistant_2gig_gc.Gc3.Coordinator.{
  Supervision, misses_of, clear_issue, count_miss, judge, visit, zone_ids,
  update_supervision_issues, supervision_failures_before_repair,
}

-- Whether the issue of a zone should be open by its counter alone.
abbrev pub is_over : Supervision → Text → Bool
is_over s zone_id = leb supervision_failures_before_repair (misses_of s zone_id)

-- Whether some listed zone of that id reports the loss of supervision.
abbrev pub is_lost : List Zone → Text → Bool
is_lost zones zone_id = any (λ z. z.id == zone_id && z.status.loss_of_supervision) zones

pub lost-listed :
    (zones : List Zone) (i : Text) → contains (zone_ids zones) i ≡ false → is_lost zones i ≡ false
unfolding contains
lost-listed [] i h = refl
lost-listed (z ∷ zs) i h = ground (arith, lost-listed zs i)

module _ (entry_id : Text) where
  pub misses-count_miss :
      (s : Supervision) (z : Zone) (i : Text)
      → misses_of (count_miss s z) i ≡ (
          if z.id == i
          then if z.status.loss_of_supervision then misses_of s i + 1 else 0
          else misses_of s i)
  unfolding count_miss
  misses-count_miss s z i = ground (
    arith,
    get-put s.misses z.id i (misses_of s z.id + 1),
    get-pop s.misses z.id i,
    text_eq_iff z.id i,
  )

  pub misses-judge : (s : Supervision) (z : Zone) → (judge entry_id s z).misses ≡ s.misses
  unfolding judge
  misses-judge s z = ground arith

  pub reported-judge :
      (s : Supervision) (z : Zone) (i : Text)
      → contains (judge entry_id s z).reported i
        ≡ (if z.id == i then is_over s i else contains s.reported i)
  unfolding judge contains
  reported-judge s z i = ground (arith, contains-discard s.reported z.id i, text_eq_iff z.id i)

  misses-visit :
      (s : Supervision) (z : Zone) (i : Text)
      → misses_of (visit entry_id s z) i ≡ (
          if z.id == i
          then if z.status.loss_of_supervision then misses_of s i + 1 else 0
          else misses_of s i)
  unfolding visit
  misses-visit s z i =
      ap (λ d. or_default (get d i) 0) (misses-judge (count_miss s z) z) ∙ misses-count_miss s z i

  pub reported-count_miss : (s : Supervision) (z : Zone) → (count_miss s z).reported ≡ s.reported
  unfolding count_miss
  reported-count_miss s z = ground arith

  reported-visit :
      (s : Supervision) (z : Zone) (i : Text)
      → contains (visit entry_id s z).reported i
        ≡ (if z.id == i then is_over (visit entry_id s z) i else contains s.reported i)
  unfolding visit
  reported-visit s z i = ground (
    arith,
    reported-judge (count_miss s z) z i,
    reported-count_miss s z,
    ap (λ d. or_default (get d i) 0) (misses-judge (count_miss s z) z),
  )

  -- In a run over zones with different ids, each zone is counted once.
  misses-visits :
      (s : Supervision) (zones : List Zone) (i : Text)
      → IsDistinct (zone_ids zones)
      → misses_of (foldl (visit entry_id) s zones) i ≡ (
          if contains (zone_ids zones) i
          then if is_lost zones i then misses_of s i + 1 else 0
          else misses_of s i)
  unfolding contains
  misses-visits s [] i h = refl
  misses-visits s (z ∷ zs) i h = elim (Bool-cases (z.id == i)) [
    | inl same ↦
        let gone : contains (zone_ids zs) i ≡ false =
          ap (contains (zone_ids zs)) (sym (eq_of_== z.id i same)) ∙ h.0 in
        ground (
          arith,
          misses-visits (visit entry_id s z) zs i h.1,
          misses-visit s z i,
          lost-listed zs i gone,
        )
    | inr other ↦ ground (arith, misses-visits (visit entry_id s z) zs i h.1, misses-visit s z i)
  ]

  -- A zone that is not listed keeps its counter.
  misses-visits_absent :
      (s : Supervision) (zones : List Zone) (i : Text)
      → contains (zone_ids zones) i ≡ false
      → misses_of (foldl (visit entry_id) s zones) i ≡ misses_of s i
  unfolding contains
  misses-visits_absent s [] i h = refl
  misses-visits_absent s (z ∷ zs) i h =
      ground (arith, misses-visits_absent (visit entry_id s z) zs i, misses-visit s z i)

  -- After a run over zones, the issue of each of them stands by its counter.
  reported-visits :
      (s : Supervision) (zones : List Zone) (i : Text)
      → contains (foldl (visit entry_id) s zones).reported i ≡ (
          if contains (zone_ids zones) i
          then is_over (foldl (visit entry_id) s zones) i
          else contains s.reported i)
  unfolding contains
  reported-visits s [] i = refl
  reported-visits s (z ∷ zs) i = ground (
    arith,
    reported-visits (visit entry_id s z) zs i,
    reported-visit s z i,
    misses-visits_absent (visit entry_id s z) zs i,
  )

  misses-clears :
      (s : Supervision) (ids : List Text) → (foldl (clear_issue entry_id) s ids).misses ≡ s.misses
  unfolding clear_issue
  misses-clears s [] = refl
  misses-clears s (a ∷ ids) = misses-clears (clear_issue entry_id s a) ids

  reported-clears :
      (s : Supervision) (ids : List Text) (i : Text)
      → contains (foldl (clear_issue entry_id) s ids).reported i
        ≡ (contains s.reported i && not (contains ids i))
  unfolding clear_issue contains
  reported-clears s [] i = ground arith
  reported-clears s (a ∷ ids) i =
      ground
        (arith, reported-clears (clear_issue entry_id s a) ids i, contains-discard s.reported a i)

  module _ (zones : List Zone) (s : Supervision) where
    abbrev after : Supervision
    after = update_supervision_issues entry_id zones s

    abbrev visited : Supervision
    visited = foldl (visit entry_id) s zones

    misses-update : (i : Text) → misses_of after i ≡ misses_of visited i
    unfolding update_supervision_issues
    misses-update i =
        ap (λ d. or_default (get d i) 0)
          (misses-clears visited (diff visited.reported (zone_ids zones)))

    -- After an update a zone is reported exactly when the panel lists it and its counter has
    -- reached the threshold of 20; a zone that the panel no longer lists is not reported.
    pub reported-update :
        (i : Text) → contains after.reported i ≡ (contains (zone_ids zones) i && is_over after i)
    unfolding update_supervision_issues
    reported-update i = ground (
      arith,
      misses-update i,
      reported-clears visited (diff visited.reported (zone_ids zones)) i,
      contains-diff visited.reported (zone_ids zones) i,
      reported-visits s zones i,
    )

    -- Where the ids are different, an update adds one to the counter of a zone that is lost, and sets
    -- that of any other listed zone back.
    pub counter-update :
        (i : Text)
        → IsDistinct (zone_ids zones)
        → misses_of after i ≡ (
            if contains (zone_ids zones) i
            then if is_lost zones i then misses_of s i + 1 else 0
            else misses_of s i)
    counter-update i h = misses-update i ∙ misses-visits s zones i h
