-- ===== src/Gc3/Coordinator/Outages.antt =====
-- Supervision over many polls: when the repair issue of a zone is open.
use homeassistant_2gig_gc.Prelude.{
  ◌+◌, ◌≡◌, true, false, List, [], ◌∷◌, Text, text_Eq, contains, IsDistinct, All, leb, length,
  arith,
}
use homeassistant_2gig_gc.Pygc3.Models.{Zone}
use homeassistant_2gig_gc.Gc3.Coordinator.{
  Supervision, misses_of, zone_ids, update_supervision_issues, supervision_failures_before_repair,
}
use homeassistant_2gig_gc.Gc3.Coordinator.Streaks.{is_lost, reported-update, counter-update}

-- A poll that lists no id twice, and in which the zone of that id is lost.
pub record IsLoss (i : Text) (zones : List Zone) : Type 0 where
  pub distinct : IsDistinct (zone_ids zones)
  pub lost : is_lost zones i ≡ true

-- A poll that lists no id twice, and in which the zone of that id is listed and not lost.
pub record IsContact (i : Text) (zones : List Zone) : Type 0 where
  pub distinct : IsDistinct (zone_ids zones)
  pub listed : contains (zone_ids zones) i ≡ true
  pub heard : is_lost zones i ≡ false

listed_of_lost :
    (zones : List Zone) (i : Text) → is_lost zones i ≡ true → contains (zone_ids zones) i ≡ true
unfolding contains
listed_of_lost [] i h = h
listed_of_lost (z ∷ zs) i h = ground (arith, listed_of_lost zs i)

module _ (entry_id : Text) where
  -- One update for each poll.
  abbrev pub updates : Supervision → List (List Zone) → Supervision
  updates s [] = s
  updates s (zones ∷ polls) = updates (update_supervision_issues entry_id zones s) polls

  module _ (i : Text) where
    counter-loss :
        (s : Supervision) (zones : List Zone)
        → IsLoss i zones
        → misses_of (update_supervision_issues entry_id zones s) i ≡ misses_of s i + 1
    counter-loss s zones h =
        ground (arith, counter-update entry_id zones s i h.distinct, listed_of_lost zones i h.lost)

    counter-losses :
        (s : Supervision) (polls : List (List Zone))
        → All (IsLoss i) polls
        → misses_of (updates s polls) i ≡ misses_of s i + length polls
    counter-losses s [] h = omega arith
    counter-losses s (zones ∷ polls) h = omega (
      arith,
      counter-losses (update_supervision_issues entry_id zones s) polls h.1,
      counter-loss s zones h.0,
    )

    reported-losses :
        (s : Supervision) (zones : List Zone) (polls : List (List Zone))
        → IsLoss i zones
        → All (IsLoss i) polls
        → contains (updates s (zones ∷ polls)).reported i
          ≡ leb supervision_failures_before_repair (misses_of s i + length (zones ∷ polls))
    reported-losses s zones [] h hs = ground (
      arith,
      reported-update entry_id zones s i,
      listed_of_lost zones i h.lost,
      counter-loss s zones h,
    )
    reported-losses s zones (more ∷ polls) h hs = ground (
      arith,
      reported-losses (update_supervision_issues entry_id zones s) more polls hs.0 hs.1,
      counter-loss s zones h,
    )

    -- After a poll that heard from the zone its counter is 0 and it is not reported, whatever came
    -- before.
    pub contact_clears :
        (s : Supervision) (zones : List Zone)
        → IsContact i zones
        → (misses_of (update_supervision_issues entry_id zones s) i ≡ 0)
          × (contains (update_supervision_issues entry_id zones s).reported i ≡ false)
    contact_clears s zones h = ground (
      arith,
      reported-update entry_id zones s i,
      counter-update entry_id zones s i h.distinct,
      h.listed,
      h.heard,
    )

    -- From any state: after a poll that heard from a zone, and then any number of polls in which it
    -- was lost, none of them listing an id twice, the zone is reported exactly when the latter were at
    -- least 20.
    pub outage-reported :
        (s : Supervision) (zones : List Zone) (polls : List (List Zone))
        → IsContact i zones
        → All (IsLoss i) polls
        → contains (updates s (zones ∷ polls)).reported i
          ≡ leb supervision_failures_before_repair (length polls)
    outage-reported s zones [] h hs = ground (arith, contact_clears s zones h)
    outage-reported s zones (more ∷ polls) h hs = ground (
      arith,
      reported-losses (update_supervision_issues entry_id zones s) more polls hs.0 hs.1,
      contact_clears s zones h,
    )

    -- A poll that does not list a zone does not set its counter back: a zone one miss short of the
    -- threshold that is gone in one poll and lost in the next is reported, where neither poll lists an
    -- id twice, though the misses were not in consecutive polls.
    pub gap_keeps_count :
        (s : Supervision) (without zones : List Zone)
        → misses_of s i + 1 ≡ supervision_failures_before_repair
        → IsDistinct (zone_ids without)
        → contains (zone_ids without) i ≡ false
        → IsLoss i zones
        → contains (updates s (without ∷ zones ∷ [])).reported i ≡ true
    gap_keeps_count s without zones short distinct gone h = ground (
      arith,
      reported-losses (update_supervision_issues entry_id without s) zones [] h tt,
      counter-update entry_id without s i distinct,
      gone,
    )
