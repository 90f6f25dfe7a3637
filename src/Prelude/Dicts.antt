-- ===== src/Prelude/Dicts.antt =====
-- Python's `dict` as an association list in insertion order.
use mathlib.Core.Bool.{true, false, ◌||◌}
use mathlib.Core.List.{List, [], ◌∷◌}
use mathlib.Core.Option.{Option, none, some}
use mathlib.Core.Path.{◌≡◌, refl, ap, sym, ◌∙◌}
use native.Mathlib.Omega.{arith}
use homeassistant_2gig_gc.Prelude.Equality.{Eq, ◌==◌}
use homeassistant_2gig_gc.Prelude.Lists.{contains, IsDistinct}
use mathlib.Core.Logic.{inl, inr}
use homeassistant_2gig_gc.Prelude.Tests.{if◌then◌else◌, Bool-cases}

abbrev pub Dict {ℓ} : Type ℓ → Type ℓ → Type ℓ
Dict K V = List (K × V)

abbrev pub or_default {ℓ} : {V : Type ℓ} → Option V → V → V
or_default none d = d
or_default (some v) d = v

module _ {ℓ} {K V : Type ℓ} where
  abbrev pub keys : Dict K V → List K
  keys [] = []
  keys ((k, v) ∷ d) = k ∷ keys d

module _ {ℓ} {K V : Type ℓ} ⦃e : Eq K⦄ where
  -- `d.get(k)`
  unfoldable pub get : Dict K V → K → Option V
  get [] k = none
  get ((j, v) ∷ d) k = if j == k then some v else get d k

  -- `d[k] = v`
  unfoldable pub put : Dict K V → K → V → Dict K V
  put [] k v = (k, v) ∷ []
  put ((j, w) ∷ d) k v = if j == k then (j, v) ∷ d else (j, w) ∷ put d k v

  -- `d.pop(k, None)`
  unfoldable pub pop : Dict K V → K → Dict K V
  pop [] k = []
  pop ((j, v) ∷ d) k = let rest = pop d k in if j == k then rest else (j, v) ∷ rest

  -- `{**a, **b}`
  unfoldable pub merge : Dict K V → Dict K V → Dict K V
  merge a [] = a
  merge a ((k, v) ∷ b) = merge (put a k v) b

  pub get-put :
      (d : Dict K V) (k j : K) (v : V) → get (put d k v) j ≡ (if k == j then some v else get d j)
  unfolding get put
  get-put [] k j v = refl
  get-put ((i, w) ∷ d) k j v =
      ground (arith, get-put d k j v, e.beq_iff i k, e.beq_iff i j, e.beq_iff k j)

  pub get-pop : (d : Dict K V) (k j : K) → get (pop d k) j ≡ (if k == j then none else get d j)
  unfolding get pop
  get-pop [] k j = ground arith
  get-pop ((i, w) ∷ d) k j =
      ground (arith, get-pop d k j, e.beq_iff i k, e.beq_iff i j, e.beq_iff k j)

  pub contains-put :
      (d : Dict K V) (k : K) (v : V) (j : K)
      → contains (keys (put d k v)) j ≡ (contains (keys d) j || k == j)
  unfolding put contains
  contains-put [] k v j = ground arith
  contains-put ((i, w) ∷ d) k v j =
      ground (arith, contains-put d k v j, e.beq_iff i k, e.beq_iff i j, e.beq_iff k j)

  -- To put a value adds no second entry of a key.
  pub put-IsDistinct :
      (d : Dict K V) (k : K) (v : V) → IsDistinct (keys d) → IsDistinct (keys (put d k v))
  unfolding put contains
  put-IsDistinct [] k v h = (refl, tt)
  put-IsDistinct ((j, w) ∷ d) k v (gone, h) = elim (Bool-cases (j == k)) [
    | inl same ↦ rw same (gone, h)
    | inr other ↦ rw other (
      ground (arith, contains-put d k v j, gone, other, e.beq_iff j k, e.beq_iff k j),
      put-IsDistinct d k v h,
    )
  ]

  -- A key that `b` does not have keeps its value of `a`.
  pub get-merge_absent :
      (a b : Dict K V) (k : K) → contains (keys b) k ≡ false → get (merge a b) k ≡ get a k
  unfolding merge contains
  get-merge_absent a [] k h = refl
  get-merge_absent a ((j, v) ∷ b) k h =
      ground (arith, get-merge_absent (put a j v) b k, get-put a j k v)

  -- A key that `b` has takes its value of `b`.
  pub get-merge_present :
      (a b : Dict K V) (k : K)
      → IsDistinct (keys b)
      → contains (keys b) k ≡ true
      → get (merge a b) k ≡ get b k
  unfolding merge get contains
  get-merge_present a [] k h p = cc
  get-merge_present a ((j, v) ∷ b) k h p = elim (Bool-cases (j == k)) [
    | inl same ↦
        let here : j ≡ k = ground (arith, same, e.beq_iff j k) in
        let gone : contains (keys b) k ≡ false = ap (contains (keys b)) (sym here) ∙ h.0 in
        rw (get-merge_absent (put a j v) b k gone, get-put a j k v, same) refl
    | inr other ↦ rw (get-merge_present (put a j v) b k h.1 (ground (arith, p, other)), other) refl
  ]

  pub key_of_get : (d : Dict K V) (k : K) (v : V) → get d k ≡ some v → contains (keys d) k ≡ true
  unfolding get contains
  key_of_get [] k v h = cc
  key_of_get ((j, w) ∷ d) k v h = elim (Bool-cases (j == k)) [
    | inl same ↦ rw same refl
    | inr other ↦ let later : get d k ≡ some v = rw other at h in rw other (key_of_get d k v later)
  ]
