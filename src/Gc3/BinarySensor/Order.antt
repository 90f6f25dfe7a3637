-- ===== src/Gc3/BinarySensor/Order.antt =====
-- `_sort_key` of custom_components/gc3/binary_sensor.py, and Python's `sorted` by that key, which
-- compares the numbers first and then the texts, code point by code point.
use homeassistant_2gig_gc.Prelude.{
  ℕ, Bool, true, false, ◌&&◌, ◌||◌, List, [], ◌∷◌, Text, is_digit, parse_digits, ltb, nat_eq,
  if◌then◌else◌,
}

abbrev pub SortKey : Type 0
SortKey = ℕ × Text

-- `_sort_key`
unfoldable pub sort_key : Text → SortKey
sort_key zone_id =
    if is_digit zone_id then (parse_digits 0 zone_id, []) else (1_000_000_000, zone_id)

-- `s <= t`
unfoldable pub text_leb : Text → Text → Bool
text_leb [] t = true
text_leb (c ∷ s) [] = false
text_leb (c ∷ s) (d ∷ t) = ltb c d || (nat_eq c d && text_leb s t)

unfoldable pub key_leb : SortKey → SortKey → Bool
unfolding text_leb
key_leb (m, s) (n, t) = ltb m n || (nat_eq m n && text_leb s t)

-- Whether one zone id may stand before another.
abbrev pub comes_before : Text → Text → Bool
comes_before a b = key_leb (sort_key a) (sort_key b)

unfoldable pub insert_sorted : Text → List Text → List Text
insert_sorted a [] = a ∷ []
insert_sorted a (b ∷ bs) =
    let rest = insert_sorted a bs in if comes_before a b then a ∷ b ∷ bs else b ∷ rest

-- `sorted(ids, key=_sort_key)`
unfoldable pub sort_ids : List Text → List Text
unfolding insert_sorted
sort_ids [] = []
sort_ids (a ∷ as') = insert_sorted a (sort_ids as')
