-- ===== src/Gc3/BinarySensor/Sync.antt =====
-- The listener that adds and removes zone sensors.
use mathlib.Core.List.{append-nil}
use homeassistant_2gig_gc.Prelude.{
  ◌≡◌, refl, sym, ◌∙◌, true, not, ◌&&◌, ◌||◌, Option, List, [], ◌∷◌, ◌++◌, Text, text_Eq, ◌==◌,
  contains, contains-append, contains-diff, diff, any, arith, ==_refl,
}
use homeassistant_2gig_gc.Gc3.BinarySensor.{Platform, sync_ids, sort_ids, insert_sorted, add_new}

contains-insert_sorted :
    (a : Text) (bs : List Text) (i : Text)
    → contains (insert_sorted a bs) i ≡ (a == i || contains bs i)
unfolding insert_sorted contains
contains-insert_sorted a [] i = refl
contains-insert_sorted a (b ∷ bs) i = ground (arith, contains-insert_sorted a bs i)

contains-sort_ids : (ids : List Text) (i : Text) → contains (sort_ids ids) i ≡ contains ids i
unfolding sort_ids contains
contains-sort_ids [] i = refl
contains-sort_ids (a ∷ ids) i =
    ground (arith, contains-insert_sorted a (sort_ids ids) i, contains-sort_ids ids i)

-- A difference with everything taken away is empty.
diff-nil :
    (xs ys : List Text)
    → ((i : Text) → contains xs i ≡ true → contains ys i ≡ true)
    → diff xs ys ≡ []
unfolding diff contains
diff-nil [] ys h = refl
diff-nil (x ∷ xs) ys h = ground (arith, h x, ==_refl x, diff-nil xs ys (λ i e. h i (ground arith)))

known-add_new :
    (new : List Text) (p : Platform) (i : Text)
    → contains (add_new new p).known i ≡ (contains p.known i || contains new i)
unfolding add_new contains
known-add_new [] p i = ground arith
known-add_new (a ∷ new) p i = contains-append p.known (a ∷ new) i

added-add_new :
    (new : List Text) (p : Platform)
    → (batches : List (List Text)) × ((add_new new p).added ≡ p.added ++ batches)
      × ((i : Text) → any (λ ids. contains ids i) batches ≡ contains new i)
unfolding add_new contains
added-add_new [] p = ([], sym (append-nil p.added), λ i. refl)
added-add_new (a ∷ new) p =
    (sort_ids (a ∷ new) ∷ [], refl, λ i. ground (arith, contains-sort_ids (a ∷ new) i))

module _ (registry : Text → Option Text) (entry_id : Text) (current : List Text) where
  -- Where the platform knows what is listed, a sync does nothing.
  sync_ids_known :
      (q : Platform)
      → ((i : Text) → contains q.known i ≡ contains current i)
      → ((sync_ids registry entry_id current q).added ≡ q.added)
        × ((sync_ids registry entry_id current q).removed ≡ q.removed)
  unfolding sync_ids
  sync_ids_known q h =
      let nothing_new : diff current q.known ≡ [] = diff-nil current q.known (λ i e. h i ∙ e) in
      let nothing_gone : diff q.known current ≡ [] =
        diff-nil q.known current (λ i e. sym (h i) ∙ e) in
      rw (nothing_new, nothing_gone) (refl, append-nil q.removed)

module _ (registry : Text → Option Text) (entry_id : Text) (current : List Text)
    (p : Platform) where
  abbrev after : Platform
  after = sync_ids registry entry_id current p

  -- After a sync the platform knows exactly the ids that the panel lists now.
  pub known-sync_ids : (i : Text) → contains after.known i ≡ contains current i
  unfolding sync_ids
  known-sync_ids i =
      let p' = add_new (diff current p.known) p in
      ground (
        arith,
        contains-diff p'.known (diff p'.known current) i,
        contains-diff p'.known current i,
        known-add_new (diff current p.known) p i,
        contains-diff current p.known i,
      )

  -- A sync adds sensors for exactly the ids that are listed now and were not known before.
  pub added-sync_ids :
      (batches : List (List Text)) × (after.added ≡ p.added ++ batches)
      × ((i : Text)
          → any (λ ids. contains ids i) batches ≡ (contains current i && not (contains p.known i)))
  unfolding sync_ids
  added-sync_ids =
      let (batches, added, same) = added-add_new (diff current p.known) p in
      (batches, added, λ i. same i ∙ contains-diff current p.known i)

  -- A second sync with the same zones adds nothing and removes nothing.
  pub sync_ids_idem :
      ((sync_ids registry entry_id current after).added ≡ after.added)
      × ((sync_ids registry entry_id current after).removed ≡ after.removed)
  sync_ids_idem = sync_ids_known registry entry_id current after known-sync_ids
