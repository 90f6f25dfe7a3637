-- ===== src/Gc3/BinarySensor/Arrivals.antt =====
-- The zone sensors over a run of polls.
use homeassistant_2gig_gc.Prelude.{
  ℕ, ◌+◌, ◌≡◌, refl, ◌∙◌, Bool, true, false, not, ◌&&◌, Option, List, [], ◌∷◌, ◌++◌, Text, text_Eq,
  Dict, keys, put, put-IsDistinct, contains, contains-diff, diff, diff-IsDistinct,
  append-IsDistinct, IsDistinct, count, count-IsDistinct, arith, if◌then◌else◌,
}
use homeassistant_2gig_gc.Pygc3.Models.{PanelStatus, Zone}
use homeassistant_2gig_gc.Gc3.Coordinator.{Coordinator, new_data, index_zones, zone_ids}
use homeassistant_2gig_gc.Gc3.BinarySensor.{
  Platform, sync_ids, sync_zones, sort_ids, insert_sorted, add_new,
}
use homeassistant_2gig_gc.Gc3.BinarySensor.Entities.{polled, known-sync_zones, contains-keys_index}

-- How often a zone sensor was handed over for a zone.
abbrev pub times_added : Text → List (List Text) → ℕ
times_added i [] = 0
times_added i (ids ∷ batches) = count i ids + times_added i batches

count-insert_sorted :
    (a : Text) (bs : List Text) (i : Text) → count i (insert_sorted a bs) ≡ count i (a ∷ bs)
unfolding insert_sorted
count-insert_sorted a [] i = refl
count-insert_sorted a (b ∷ bs) i = ground (arith, count-insert_sorted a bs i)

count-sort_ids : (ids : List Text) (i : Text) → count i (sort_ids ids) ≡ count i ids
unfolding sort_ids
count-sort_ids [] i = refl
count-sort_ids (a ∷ ids) i =
    ground (arith, count-insert_sorted a (sort_ids ids) i, count-sort_ids ids i)

times_added-append :
    (batches later : List (List Text)) (i : Text)
    → times_added i (batches ++ later) ≡ times_added i batches + times_added i later
times_added-append [] later i = omega arith
times_added-append (ids ∷ batches) later i = omega (arith, times_added-append batches later i)

times_added-add_new :
    (new : List Text) (p : Platform) (i : Text)
    → times_added i (add_new new p).added ≡ times_added i p.added + count i new
unfolding add_new
times_added-add_new [] p i = omega arith
times_added-add_new (a ∷ new) p i =
    omega
      (arith, times_added-append p.added (sort_ids (a ∷ new) ∷ []) i, count-sort_ids (a ∷ new) i)

add_new-IsDistinct :
    (new : List Text) (p : Platform)
    → IsDistinct p.known
    → IsDistinct new
    → ((i : Text) → contains p.known i ≡ true → contains new i ≡ false)
    → IsDistinct (add_new new p).known
unfolding add_new
add_new-IsDistinct [] p h k apart = h
add_new-IsDistinct (a ∷ new) p h k apart = append-IsDistinct p.known (a ∷ new) h k apart

sync_ids-IsDistinct :
    (registry : Text → Option Text) (entry_id : Text) (current : List Text) (p : Platform)
    → IsDistinct current
    → IsDistinct p.known
    → IsDistinct (sync_ids registry entry_id current p).known
unfolding sync_ids
sync_ids-IsDistinct registry entry_id current p h k =
    let new = diff current p.known in
    let p' = add_new new p in
    diff-IsDistinct p'.known (diff p'.known current) (
      add_new-IsDistinct new p k (diff-IsDistinct current p.known h)
        (λ i known. ground (arith, contains-diff current p.known i, known)))

-- A sync hands over a sensor for each zone that is listed and was not known, once.
times_added-sync_ids :
    (registry : Text → Option Text) (entry_id : Text) (current : List Text) (p : Platform)
    (i : Text)
    → IsDistinct current
    → times_added i (sync_ids registry entry_id current p).added
      ≡ times_added i p.added + (if contains current i && not (contains p.known i) then 1 else 0)
unfolding sync_ids
times_added-sync_ids registry entry_id current p i h = ground (
  arith,
  times_added-add_new (diff current p.known) p i,
  count-IsDistinct (diff current p.known) i (diff-IsDistinct current p.known h),
  contains-diff current p.known i,
)

index-IsDistinct :
    (d : Dict Text Zone) (zones : List Zone)
    → IsDistinct (keys d)
    → IsDistinct (keys (index_zones d zones))
unfolding index_zones
index-IsDistinct d [] h = h
index-IsDistinct d (z ∷ zs) h = index-IsDistinct (put d z.id z) zs (put-IsDistinct d z.id z h)

-- In how many of the polls the zone is listed and was not before.
abbrev pub arrivals : Text → Bool → List (PanelStatus × List Zone) → ℕ
arrivals i was [] = 0
arrivals i was ((status, zones) ∷ later) =
    let listed = contains (zone_ids zones) i in
    (if listed && not was then 1 else 0) + arrivals i listed later

module _ (registry : Text → Option Text) (c : Coordinator) where
  -- The listener, called with one snapshot after the other.
  abbrev pub listens : Platform → List (PanelStatus × List Zone) → Platform
  listens p [] = p
  listens p ((status, zones) ∷ later) =
      listens (sync_zones registry (polled status zones c) p) later

  times_added-sync_zones :
      (status : PanelStatus) (zones : List Zone) (p : Platform) (i : Text)
      → times_added i (sync_zones registry (polled status zones c) p).added
        ≡ times_added i p.added
          + (if contains (zone_ids zones) i && not (contains p.known i) then 1 else 0)
  unfolding sync_zones new_data contains
  times_added-sync_zones status zones p i =
      let listed : contains (keys (index_zones [] zones)) i ≡ contains (zone_ids zones) i =
        contains-keys_index [] zones i in
      times_added-sync_ids registry c.entry.entry_id (keys (index_zones [] zones)) p i
        (index-IsDistinct [] zones tt)
      ∙ rw listed refl

  -- The listener knows no zone twice.
  pub sync_zones-IsDistinct :
      (status : PanelStatus) (zones : List Zone) (p : Platform)
      → IsDistinct p.known
      → IsDistinct (sync_zones registry (polled status zones c) p).known
  unfolding sync_zones new_data
  sync_zones-IsDistinct status zones p h =
      sync_ids-IsDistinct registry c.entry.entry_id (keys (index_zones [] zones)) p
        (index-IsDistinct [] zones tt) h

  pub listens-IsDistinct :
      (p : Platform) (polls : List (PanelStatus × List Zone))
      → IsDistinct p.known
      → IsDistinct (listens p polls).known
  listens-IsDistinct p [] h = h
  listens-IsDistinct p ((status, zones) ∷ later) h =
      listens-IsDistinct (sync_zones registry (polled status zones c) p) later
        (sync_zones-IsDistinct status zones p h)

  -- Over any run of polls: a sensor for a zone is handed to Home Assistant exactly once for each time
  -- that the zone appears in the panel's list, however often it stands there and however long it stays.
  pub added-listens :
      (p : Platform) (polls : List (PanelStatus × List Zone)) (i : Text)
      → times_added i (listens p polls).added
        ≡ times_added i p.added + arrivals i (contains p.known i) polls
  added-listens p [] i = omega arith
  added-listens p ((status, zones) ∷ later) i =
      let p' = sync_zones registry (polled status zones c) p in
      added-listens p' later i
      ∙ rw (times_added-sync_zones status zones p i, known-sync_zones status zones c registry p i)
          (omega arith)
