-- ===== src/Tools/Mdns/Halting.antt =====
-- The loop of `decode_name` ends on every packet.
use homeassistant_2gig_gc.Prelude.{
  ℕ, suc, ◌⊎◌, inl, inr, ◌+◌, ◌*◌, ◌-◌, ◌≤◌, ◌≡◌, refl, ap, ◌∙◌, Bool, true, false, ◌&&◌, ◌||◌,
  Option, none, some, List, Text, nat_eq, leb, ltb, length, arith,
}
use homeassistant_2gig_gc.Tools.Mdns.{
  Cursor, Turn, finished, going, turn, follow, decode_loop, decode_name, passes, start_at,
  join_name,
}

-- A pass that goes on reads on from within the packet, or takes one of 20 jumps.
abbrev advances : ℕ → Cursor → Turn → Bool
advances size c (finished labels stop) = true
advances size c (going c') =
    (nat_eq c'.hops c.hops && ltb c.off c'.off && ltb c.off size)
    || (nat_eq c'.hops (c.hops + 1) && leb c'.hops 20)

turn-advances :
    (decode : List ℕ → Text) (buf : List ℕ) (c : Cursor)
    → advances (length buf) c (turn decode buf c) ≡ true
unfolding turn follow
turn-advances decode buf c = ground arith

abbrev pub is_some {ℓ} : {A : Type ℓ} → Option A → Bool
is_some none = false
is_some (some a) = true

-- With that many jumps left, the passes that are enough from a cursor on.
abbrev needed : ℕ → ℕ → Cursor → ℕ
needed left size c = left * (size + 1) + (size - c.off) + 1

abbrev loop_after : (List ℕ → Text) → List ℕ → ℕ → Turn → Option (List Text × ℕ)
loop_after decode buf fuel (finished labels stop) = some (labels, stop)
loop_after decode buf fuel (going c) = decode_loop decode buf fuel c

needed-label :
    (left size fuel : ℕ) (c c' : Cursor)
    → (nat_eq c'.hops c.hops && ltb c.off c'.off && ltb c.off size) ≡ true
    → c.hops + left ≡ 20
    → needed left size c ≤ suc fuel
    → (c'.hops + left ≡ 20) × (needed left size c' ≤ fuel)
needed-label left size fuel c c' h e n = ground arith

needed-jump :
    (left size fuel : ℕ) (c c' : Cursor)
    → (nat_eq c'.hops (c.hops + 1) && leb c'.hops 20) ≡ true
    → c.hops + left ≡ 20
    → needed left size c ≤ suc fuel
    → (less : ℕ) × (c'.hops + less ≡ 20) × (needed less size c' ≤ fuel)
needed-jump ℕ.zero size fuel c c' h e n = absurd (ground arith)
needed-jump (suc less) size fuel c c' h e n = (less, ground arith, ground arith)

or-cases : (a b : Bool) → (a || b) ≡ true → (a ≡ true) ⊎ (b ≡ true)
or-cases true b h = inl refl
or-cases false b h = inr h

module _ (decode : List ℕ → Text) (buf : List ℕ) where
  -- The statement about the loop with that much fuel.
  abbrev Halts : ℕ → Type 0
  Halts fuel =
      (left : ℕ) (c : Cursor)
      → c.hops + left ≡ 20
      → needed left (length buf) c ≤ fuel
      → is_some (decode_loop decode buf fuel c) ≡ true

  turn-Halts :
      (fuel left : ℕ) (c : Cursor) (t : Turn)
      → Halts fuel
      → advances (length buf) c t ≡ true
      → c.hops + left ≡ 20
      → needed left (length buf) c ≤ suc fuel
      → is_some (loop_after decode buf fuel t) ≡ true
  turn-Halts fuel left c (finished labels stop) ih a e n = refl
  turn-Halts fuel left c (going c') ih a e n = elim (or-cases _ _ a) [
    | inl label ↦
        let (e', n') = needed-label left (length buf) fuel c c' label e n in ih left c' e' n'
    | inr jump ↦
        let (less, e', n') = needed-jump left (length buf) fuel c c' jump e n in ih less c' e' n'
  ]

  loop_step :
      (fuel : ℕ) (t : Turn)
      → (elim t [
        | finished labels stop ↦ some (labels, stop)
        | going c' ↦ decode_loop decode buf fuel c'
      ])
        ≡ loop_after decode buf fuel t
  loop_step fuel (finished labels stop) = refl
  loop_step fuel (going c') = refl

  decode_loop-Halts : (fuel : ℕ) → Halts fuel
  unfolding decode_loop
  decode_loop-Halts ℕ.zero left c e n = absurd (ground arith)
  decode_loop-Halts (suc fuel) left c e n =
      ap is_some (loop_step fuel (turn decode buf c))
      ∙ turn-Halts fuel left c (turn decode buf c) (decode_loop-Halts fuel)
          (turn-advances decode buf c) e n

is_some-join_name : (r : Option (List Text × ℕ)) → is_some (join_name r) ≡ is_some r
is_some-join_name none = refl
is_some-join_name (some (labels, stop)) = refl

-- `decode_name` returns a name for every packet and every offset, also where the compression pointers
-- of the packet form a circle: 20 passes over the packet, and one more, are enough for its loop.
pub decode_name-halts :
    (decode : List ℕ → Text) (buf : List ℕ) (off : ℕ) → is_some (decode_name decode buf off) ≡ true
unfolding decode_name
decode_name-halts decode buf off =
    is_some-join_name (decode_loop decode buf (passes buf) (start_at off))
    ∙ decode_loop-Halts decode buf (passes buf) 20 (start_at off) refl (omega arith)
