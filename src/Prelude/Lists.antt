-- ===== src/Prelude/Lists.antt =====
-- List operations by Boolean tests: Python's `any`, comprehensions with a condition, `in`, and
-- sets as lists.
use Prim.Native.Nat.{ℕ, zero, suc, ◌+◌}
use mathlib.Core.Bool.{Bool, true, false, ◌&&◌, ◌||◌, not}
use mathlib.Core.List.{List, [], ◌∷◌, ◌++◌, map}
use mathlib.Core.Logic.{inl, inr}
use mathlib.Core.Path.{◌≡◌, refl}
use native.Mathlib.Omega.{arith}
use homeassistant_2gig_gc.Prelude.Equality.{Eq, ◌==◌}
use homeassistant_2gig_gc.Prelude.Tests.{if◌then◌else◌, Bool-cases}

module _ {ℓ} {A : Type ℓ} where
  abbrev pub length : List A → ℕ
  length [] = 0
  length (x ∷ xs) = suc (length xs)

  abbrev pub any : (A → Bool) → List A → Bool
  any p [] = false
  any p (x ∷ xs) = p x || any p xs

  -- `[x for x in xs if p(x)]`
  abbrev pub filter : (A → Bool) → List A → List A
  filter p [] = []
  filter p (x ∷ xs) = let rest = filter p xs in if p x then x ∷ rest else rest

  -- `xs[:n]`
  abbrev pub take : ℕ → List A → List A
  take zero xs = []
  take (suc n) [] = []
  take (suc n) (x ∷ xs) = x ∷ take n xs

  -- `xs[n:]`
  abbrev pub drop : ℕ → List A → List A
  drop zero xs = xs
  drop (suc n) [] = []
  drop (suc n) (x ∷ xs) = drop n xs

  abbrev pub is_empty : List A → Bool
  is_empty [] = true
  is_empty (x ∷ xs) = false

  abbrev pub All {κ} : (A → Type κ) → List A → Type κ
  All P [] = Unit
  All P (x ∷ xs) = P x × All P xs

  pub length-append : (xs ys : List A) → length (xs ++ ys) ≡ length xs + length ys
  length-append [] ys = omega arith
  length-append (x ∷ xs) ys = omega (arith, length-append xs ys)

  pub any-append : (p : A → Bool) (xs ys : List A) → any p (xs ++ ys) ≡ (any p xs || any p ys)
  any-append p [] ys = refl
  any-append p (x ∷ xs) ys = ground (arith, any-append p xs ys)

  pub filter-is_empty : (p : A → Bool) (xs : List A) → not (is_empty (filter p xs)) ≡ any p xs
  filter-is_empty p [] = refl
  filter-is_empty p (x ∷ xs) = ground (arith, filter-is_empty p xs)

  All-if {κ} :
      (P : A → Type κ) (b : Bool) (x : A) (xs : List A)
      → P x
      → All P xs
      → All P (if b then x ∷ xs else xs)
  All-if P true x xs h hs = (h, hs)
  All-if P false x xs h hs = hs

  pub All-filter {κ} :
      (P : A → Type κ) (p : A → Bool) (xs : List A) → All P xs → All P (filter p xs)
  All-filter P p [] h = h
  All-filter P p (x ∷ xs) h = All-if P (p x) x (filter p xs) h.0 (All-filter P p xs h.1)

module _ {ℓ} {A : Type ℓ} ⦃e : Eq A⦄ where
  -- `a in xs`
  unfoldable pub contains : List A → A → Bool
  contains [] a = false
  contains (x ∷ xs) a = x == a || contains xs a

  -- How often an element is in a list.
  abbrev pub count : A → List A → ℕ
  count a [] = 0
  count a (x ∷ xs) = let rest = count a xs in if x == a then rest + 1 else rest

  -- A set without one element (`set.discard`).
  unfoldable pub discard : List A → A → List A
  discard [] a = []
  discard (x ∷ xs) a = let rest = discard xs a in if x == a then rest else x ∷ rest

  -- `xs - ys`, and `xs.difference_update(ys)`.
  unfoldable pub diff : List A → List A → List A
  diff [] ys = []
  diff (x ∷ xs) ys = let rest = diff xs ys in if contains ys x then rest else x ∷ rest

  -- No element is listed twice.
  abbrev pub IsDistinct : List A → Type 0
  IsDistinct [] = Unit
  IsDistinct (x ∷ xs) = (contains xs x ≡ false) × IsDistinct xs

  pub contains-append :
      (xs ys : List A) (a : A) → contains (xs ++ ys) a ≡ (contains xs a || contains ys a)
  unfolding contains
  contains-append [] ys a = refl
  contains-append (x ∷ xs) ys a = ground (arith, contains-append xs ys a)

  pub contains-discard :
      (xs : List A) (a b : A) → contains (discard xs a) b ≡ (not (a == b) && contains xs b)
  unfolding contains discard
  contains-discard [] a b = ground arith
  contains-discard (x ∷ xs) a b =
      ground (arith, contains-discard xs a b, e.beq_iff x a, e.beq_iff x b, e.beq_iff a b)

  pub contains-diff :
      (xs ys : List A) (a : A) → contains (diff xs ys) a ≡ (contains xs a && not (contains ys a))
  unfolding contains diff
  contains-diff [] ys a = refl
  contains-diff (x ∷ xs) ys a = elim (Bool-cases (x == a)) [
    | inl same ↦
        let p : x ≡ a = (e.beq_iff x a).0 same in
        ground (arith, contains-diff xs ys a, ap_contains p)
    | inr other ↦ ground (arith, contains-diff xs ys a)
  ]
    where
      ap_contains : x ≡ a → contains ys x ≡ contains ys a
      ap_contains p = λ i. contains ys (p i)

  pub contains-filter_kept :
      (p : A → Bool) (xs : List A) (a : A) → contains (filter p xs) a ≡ true → contains xs a ≡ true
  unfolding contains
  contains-filter_kept p [] a h = h
  contains-filter_kept p (x ∷ xs) a h = ground (arith, contains-filter_kept p xs a)

  -- In a list without repetitions, an element is at most once.
  pub count-IsDistinct :
      (xs : List A) (a : A) → IsDistinct xs → count a xs ≡ (if contains xs a then 1 else 0)
  unfolding contains
  count-IsDistinct [] a h = refl
  count-IsDistinct (x ∷ xs) a (gone, h) = elim (Bool-cases (x == a)) [
    | inl same ↦
        let p : contains xs x ≡ contains xs a = λ i. contains xs ((e.beq_iff x a).0 same i) in
        ground (arith, count-IsDistinct xs a h, p, gone)
    | inr other ↦ ground (arith, count-IsDistinct xs a h)
  ]

  pub count-append : (xs ys : List A) (a : A) → count a (xs ++ ys) ≡ count a xs + count a ys
  count-append [] ys a = omega arith
  count-append (x ∷ xs) ys a = ground (arith, count-append xs ys a)

  pub append-IsDistinct :
      (xs ys : List A)
      → IsDistinct xs
      → IsDistinct ys
      → ((a : A) → contains xs a ≡ true → contains ys a ≡ false)
      → IsDistinct (xs ++ ys)
  unfolding contains
  append-IsDistinct [] ys h k apart = k
  append-IsDistinct (x ∷ xs) ys (gone, h) k apart =
      let itself : (x == x) ≡ true = (e.beq_iff x x).1 refl in
      (
        ground (arith, contains-append xs ys x, gone, apart x, itself),
        append-IsDistinct xs ys h k (λ a l. apart a (ground (arith, l))),
      )

  pub diff-IsDistinct : (xs ys : List A) → IsDistinct xs → IsDistinct (diff xs ys)
  unfolding diff
  diff-IsDistinct [] ys h = tt
  diff-IsDistinct (x ∷ xs) ys h = ground (arith, diff-IsDistinct xs ys h.1, contains-diff xs ys x)

pub is_empty-map {ℓ κ} :
    {A : Type ℓ} {B : Type κ} (f : A → B) (xs : List A) → is_empty (map f xs) ≡ is_empty xs
is_empty-map f [] = refl
is_empty-map f (x ∷ xs) = refl
