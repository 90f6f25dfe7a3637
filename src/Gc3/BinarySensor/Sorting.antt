-- ===== src/Gc3/BinarySensor/Sorting.antt =====
-- The order in which new zone sensors are added.
use mathlib.Core.List.{Perm, perm-cons}
use mathlib.Core.List.Perm
use homeassistant_2gig_gc.Prelude.{
  ◌<◌, ◌≡◌, refl, true, false, List, [], ◌∷◌, Text, text_Eq, is_digit, parse_digits, leb, arith,
  if-cases,
}
use homeassistant_2gig_gc.Gc3.BinarySensor.{
  sort_key, text_leb, key_leb, comes_before, insert_sorted, sort_ids,
}

text_leb_total : (s t : Text) → text_leb s t ≡ false → text_leb t s ≡ true
unfolding text_leb
text_leb_total [] t h = cc
text_leb_total (c ∷ s) [] h = refl
text_leb_total (c ∷ s) (d ∷ t) h = ground (arith, text_leb_total s t)

comes_before_total : (a b : Text) → comes_before a b ≡ false → comes_before b a ≡ true
unfolding key_leb
comes_before_total a b h = ground (arith, text_leb_total (sort_key a).1 (sort_key b).1)

-- Each id may stand before the next.
abbrev pub IsSorted : List Text → Type 0
IsSorted [] = Unit
IsSorted (a ∷ []) = Unit
IsSorted (a ∷ b ∷ bs) = (comes_before a b ≡ true) × IsSorted (b ∷ bs)

-- An id that may not stand first is put further down.
insert_sorted-below :
    (b a : Text) (bs : List Text)
    → comes_before b a ≡ true
    → IsSorted (b ∷ bs)
    → IsSorted (b ∷ insert_sorted a bs)
unfolding insert_sorted
insert_sorted-below b a [] first h = (first, tt)
insert_sorted-below b a (c ∷ bs) first h =
    if-cases (λ l. IsSorted (b ∷ l)) (comes_before a c) (a ∷ c ∷ bs) (c ∷ insert_sorted a bs)
      (λ e. (first, (e, h.1)))
      (λ e. (h.0, insert_sorted-below c a bs (comes_before_total a c e) h.1))

insert_sorted-IsSorted : (a : Text) (bs : List Text) → IsSorted bs → IsSorted (insert_sorted a bs)
unfolding insert_sorted
insert_sorted-IsSorted a [] h = tt
insert_sorted-IsSorted a (b ∷ bs) h =
    if-cases IsSorted (comes_before a b) (a ∷ b ∷ bs) (b ∷ insert_sorted a bs) (λ e. (e, h))
      (λ e. insert_sorted-below b a bs (comes_before_total a b e) h)

insert_sorted-perm : (a : Text) (bs : List Text) → Perm (insert_sorted a bs) (a ∷ bs)
unfolding insert_sorted
insert_sorted-perm a [] = Perm.refl (a ∷ [])
insert_sorted-perm a (b ∷ bs) =
    if-cases (λ l. Perm l (a ∷ b ∷ bs)) (comes_before a b) (a ∷ b ∷ bs) (b ∷ insert_sorted a bs)
      (λ e. Perm.refl (a ∷ b ∷ bs))
      (λ e. Perm.trans ((perm-cons b).1 (insert_sorted-perm a bs)) (Perm.swap a b bs))

-- The ids of a batch come out in the order of their keys, and are the same ids.
pub sort_ids-IsSorted : (ids : List Text) → IsSorted (sort_ids ids) × Perm (sort_ids ids) ids
unfolding sort_ids
sort_ids-IsSorted [] = (tt, Perm.refl [])
sort_ids-IsSorted (a ∷ ids) =
    let (sorted, perm) = sort_ids-IsSorted ids in
    (
      insert_sorted-IsSorted a (sort_ids ids) sorted,
      Perm.trans (insert_sorted-perm a (sort_ids ids)) ((perm-cons a).1 perm),
    )

-- Two ids that are numbers stand in numeric order.
pub numbers_in_order :
    (a b : Text)
    → is_digit a ≡ true
    → is_digit b ≡ true
    → comes_before a b ≡ leb (parse_digits 0 a) (parse_digits 0 b)
unfolding sort_key key_leb
numbers_in_order a b ha hb = ground arith

-- An id that is a number below a thousand million stands before one that is not a number, and never
-- behind it.
pub number_before_text :
    (a b : Text)
    → is_digit a ≡ true
    → is_digit b ≡ false
    → parse_digits 0 a < 1_000_000_000
    → (comes_before a b ≡ true) × (comes_before b a ≡ false)
unfolding sort_key key_leb
number_before_text a b ha hb small = ground arith

-- An id that is a larger number stands behind every id that is not a number, whatever the latter is.
pub large_number_after_text :
    (a b : Text)
    → is_digit a ≡ true
    → is_digit b ≡ false
    → 1_000_000_000 < parse_digits 0 a
    → (comes_before b a ≡ true) × (comes_before a b ≡ false)
unfolding sort_key key_leb
large_number_after_text a b ha hb large = ground arith
