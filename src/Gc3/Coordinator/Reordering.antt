-- ===== src/Gc3/Coordinator/Reordering.antt =====
-- The order in which the panel lists its zones does not matter to the supervision.
use mathlib.Core.Path.{fun_ext}
use mathlib.Core.Logic.{∥∥₁_elim}
use mathlib.Core.List.{Perm, Permᴰ}
use homeassistant_2gig_gc.Prelude.{
  ◌≡◌, refl, sym, ap, ◌∙◌, Bool, ◌||◌, List, [], ◌∷◌, Text, text_Eq, ◌==◌, ==_sym, contains,
  IsDistinct, any, All, arith,
}
use homeassistant_2gig_gc.Pygc3.Models.{Zone}
use homeassistant_2gig_gc.Gc3.Coordinator.{Supervision, zone_ids, update_supervision_issues}
use homeassistant_2gig_gc.Gc3.Coordinator.Streaks.{is_lost}
use homeassistant_2gig_gc.Gc3.Coordinator.Outages.{updates}
use homeassistant_2gig_gc.Gc3.Coordinator.Registry.{Mirrors, update-Mirrors}
use homeassistant_2gig_gc.Gc3.Coordinator.Monitor.{
  Monitor, watch, watch_by, monitor_of, update_refines,
}

any-permᴰ : (p : Zone → Bool) {xs ys : List Zone} → Permᴰ xs ys → any p xs ≡ any p ys
any-permᴰ p Permᴰ.nil = refl
any-permᴰ p (Permᴰ.cons e h) = rw (e, any-permᴰ p h) refl
any-permᴰ p (Permᴰ.swap e f) = rw (e, f) (ground arith)
any-permᴰ p (Permᴰ.trans h k) = any-permᴰ p h ∙ any-permᴰ p k

contains-any :
    (zones : List Zone) (i : Text) → contains (zone_ids zones) i ≡ any (λ z. z.id == i) zones
unfolding contains
contains-any [] i = refl
contains-any (z ∷ zs) i = ap (λ b. z.id == i || b) (contains-any zs i)

contains-perm :
    (i : Text) {xs ys : List Zone}
    → Permᴰ xs ys
    → contains (zone_ids xs) i ≡ contains (zone_ids ys) i
contains-perm i {xs} {ys} h =
    contains-any xs i ∙ any-permᴰ (λ z. z.id == i) h ∙ sym (contains-any ys i)

IsDistinct-swap :
    (i j : Text) (ids : List Text) → IsDistinct (i ∷ j ∷ ids) → IsDistinct (j ∷ i ∷ ids)
unfolding contains
IsDistinct-swap i j ids (h, (k, rest)) =
    (ground (arith, ==_sym i j), (ground (arith, ==_sym i j), rest))

IsDistinct-permᴰ :
    {xs ys : List Zone} → Permᴰ xs ys → IsDistinct (zone_ids xs) → IsDistinct (zone_ids ys)
IsDistinct-permᴰ Permᴰ.nil d = d
IsDistinct-permᴰ (Permᴰ.cons {b} e h) (gone, d) =
    (cc (contains-perm b.id h, e, gone), IsDistinct-permᴰ h d)
IsDistinct-permᴰ (Permᴰ.swap {a} {b} {l} e f) d =
    rw⁻¹ (e, f) (IsDistinct-swap a.id b.id (zone_ids l) d)
IsDistinct-permᴰ (Permᴰ.trans h k) d = IsDistinct-permᴰ k (IsDistinct-permᴰ h d)

IsDistinct-prop : (is : List Text) → IsProp (IsDistinct is)
IsDistinct-prop [] = hlevel
IsDistinct-prop (i ∷ is) = let rest = IsDistinct-prop is in hlevel rest

watch-permᴰ : (m : Monitor) {xs ys : List Zone} → Permᴰ xs ys → watch xs m ≡ watch ys m
watch-permᴰ m {xs} {ys} h =
    let listed : contains (zone_ids xs) ≡ contains (zone_ids ys) =
      fun_ext (λ i. contains-perm i h) in
    let lost : is_lost xs ≡ is_lost ys = fun_ext (λ i. any-permᴰ _ h) in
    λ j. watch_by (listed j) (lost j) m

watch-perm : (m : Monitor) {xs ys : List Zone} → Perm xs ys → watch xs m ≡ watch ys m
watch-perm m p = ∥∥₁_elim p (hlevel) (watch-permᴰ m)

IsDistinct-perm :
    {xs ys : List Zone} → Perm xs ys → IsDistinct (zone_ids xs) → IsDistinct (zone_ids ys)
IsDistinct-perm {ys} p d = ∥∥₁_elim p (IsDistinct-prop (zone_ids ys)) (λ h. IsDistinct-permᴰ h d)

-- As many polls, each with the same zones in some order.
abbrev pub IsReordering : List (List Zone) → List (List Zone) → Type 0
IsReordering [] [] = Unit
IsReordering (zones ∷ polls) (zones' ∷ polls') = Perm zones zones' × IsReordering polls polls'
IsReordering polls polls' = ⊥

module _ (entry_id : Text) where
  any_order_from :
      (s s' : Supervision) (polls polls' : List (List Zone))
      → Mirrors entry_id s
      → Mirrors entry_id s'
      → monitor_of entry_id s ≡ monitor_of entry_id s'
      → All (λ zones. IsDistinct (zone_ids zones)) polls
      → IsReordering polls polls'
      → monitor_of entry_id (updates entry_id s polls)
        ≡ monitor_of entry_id (updates entry_id s' polls')
  any_order_from s s' [] [] h h' e distinct r = e
  any_order_from s s' (zones ∷ polls) (zones' ∷ polls') h h' e (d, distinct) (p, r) =
      any_order_from (update_supervision_issues entry_id zones s)
        (update_supervision_issues entry_id zones' s') polls polls'
        (update-Mirrors entry_id zones s h) (update-Mirrors entry_id zones' s' h')
        (update_refines entry_id zones s h d
          ∙ ap (watch zones) e
          ∙ watch-perm (monitor_of entry_id s') p
          ∙ sym (update_refines entry_id zones' s' h' (IsDistinct-perm p d)))
        distinct r
  any_order_from s s' _ _ h h' e distinct r = absurd r

  -- Where at first the issue of each zone stands exactly while the zone is reported: two runs of
  -- polls that list the same zones, each poll in an order of its own and no id twice in a poll, end
  -- with the same counter and the same open issue for every zone.
  pub updates-any_order :
      (s : Supervision) (polls polls' : List (List Zone))
      → Mirrors entry_id s
      → All (λ zones. IsDistinct (zone_ids zones)) polls
      → IsReordering polls polls'
      → monitor_of entry_id (updates entry_id s polls)
        ≡ monitor_of entry_id (updates entry_id s polls')
  updates-any_order s polls polls' h distinct r =
      any_order_from s s polls polls' h h refl distinct r
