-- ===== src/Tools/Sse/Chunks.antt =====
-- How the bytes arrive does not matter to the framing, and no byte is lost.
use homeassistant_2gig_gc.Prelude.{
  ℕ, zero, suc, ◌+◌, ◌≤◌, ◌≡◌, refl, ap, ◌∙◌, inl, inr, true, Option, none, some, List, [], ◌∷◌,
  ◌++◌, arith, length, length-append, drop, starts_with, Option-cases, Bool-cases,
}
use homeassistant_2gig_gc.Tools.Sse.{Bytes, partition, cons_frame, cons_first, drain_for, drain}

starts_with-append :
    (s k t : Bytes) → length k ≤ length s → starts_with (s ++ t) k ≡ starts_with s k
unfolding starts_with
starts_with-append s [] t h = ground arith
starts_with-append [] (c ∷ k) t h = absurd (omega arith)
starts_with-append (b ∷ s) (c ∷ k) t h = ground (arith, starts_with-append s k t)

drop-append : (n : ℕ) (s t : Bytes) → n ≤ length s → drop n (s ++ t) ≡ drop n s ++ t
drop-append zero s t h = refl
drop-append (suc n) [] t h = absurd (omega arith)
drop-append (suc n) (b ∷ s) t h = drop-append n s t (omega arith)

starts_with-length : (s k : Bytes) → starts_with s k ≡ true → length k ≤ length s
unfolding starts_with
starts_with-length s [] h = omega arith
starts_with-length [] (c ∷ k) h = cc
starts_with-length (b ∷ s) (c ∷ k) h = ground (arith, starts_with-length s k)

-- A prefix, with what is dropped behind it.
starts_with-drop : (s k : Bytes) → starts_with s k ≡ true → k ++ drop (length k) s ≡ s
unfolding starts_with
starts_with-drop s [] h = refl
starts_with-drop [] (c ∷ k) h = cc
starts_with-drop (b ∷ s) (c ∷ k) h = ground (arith, starts_with-drop s k)

-- What `partition` says of its argument.
abbrev Parted : Bytes → Bytes → Option (Bytes × Bytes) → Type 0
Parted sep buf none = Unit
Parted sep buf (some (frame, rest)) = frame ++ sep ++ rest ≡ buf

cons-Parted :
    (sep : Bytes) (b : ℕ) (buf : Bytes) (o : Option (Bytes × Bytes))
    → Parted sep buf o
    → Parted sep (b ∷ buf) (cons_frame b o)
cons-Parted sep b buf none h = tt
cons-Parted sep b buf (some (frame, rest)) h = ap (λ s. b ∷ s) h

partition-Parted : (sep buf : Bytes) → Parted sep buf (partition sep buf)
unfolding partition
partition-Parted sep [] = tt
partition-Parted sep (b ∷ buf) = elim (Bool-cases (starts_with (b ∷ buf) sep)) [
  | inl here ↦ rw here (starts_with-drop (b ∷ buf) sep here)
  | inr later ↦ rw later (cons-Parted sep b buf (partition sep buf) (partition-Parted sep buf))
]

parted-length :
    (sep buf frame rest : Bytes)
    → partition sep buf ≡ some (frame, rest)
    → length frame + length sep + length rest ≡ length buf
parted-length sep buf frame rest e =
    let parted : Parted sep buf (partition sep buf) = partition-Parted sep buf in
    let whole : Parted sep buf (some (frame, rest)) = rw e at parted in
    omega (arith, length-append (frame ++ sep) rest, length-append frame sep, ap length whole)

-- What is read later does not change where the first frame ends.
partition-append :
    (sep buf more frame rest : Bytes)
    → partition sep buf ≡ some (frame, rest)
    → partition sep (buf ++ more) ≡ some (frame, rest ++ more)
unfolding partition
partition-append sep [] more frame rest e = cc
partition-append sep (b ∷ buf) more frame rest e = elim (Bool-cases (starts_with (b ∷ buf) sep)) [
  | inl here ↦
      let fits = starts_with-length (b ∷ buf) sep here in
      ground (
        arith,
        starts_with-append (b ∷ buf) sep more fits,
        drop-append (length sep) (b ∷ buf) more fits,
      )
  | inr later ↦ elim (Option-cases (partition sep buf)) [
    | inl nothing ↦ ground (arith, later, nothing)
    | inr ((f, r), found) ↦ ground (
      arith,
      starts_with-append (b ∷ buf) sep more (omega (arith, parted-length sep buf f r found)),
      partition-append sep buf more f r found,
    )
  ]
]

-- The frames of the bytes that are left, behind those that were found before.
abbrev pub drain_more : Bytes → List Bytes × Bytes → Bytes → List Bytes × Bytes
drain_more sep (frames, rest) more =
    let (later, left) = drain sep (rest ++ more) in (frames ++ later, left)

-- The bytes of the frames, each with its separator, and of what is left.
abbrev pub unframe : Bytes → List Bytes × Bytes → Bytes
unframe sep ([], rest) = rest
unframe sep (frame ∷ frames, rest) = frame ++ sep ++ unframe sep (frames, rest)

module _ (sep : Bytes) (present : 1 ≤ length sep) where
  -- More passes than bytes change nothing.
  drain_for-enough :
      (n m : ℕ) (buf : Bytes)
      → length buf ≤ n
      → length buf ≤ m
      → drain_for n sep buf ≡ drain_for m sep buf
  unfolding drain_for partition
  drain_for-enough zero zero buf h k = refl
  drain_for-enough zero (suc m) [] h k = refl
  drain_for-enough zero (suc m) (b ∷ buf) h k = absurd (omega arith)
  drain_for-enough (suc n) zero [] h k = refl
  drain_for-enough (suc n) zero (b ∷ buf) h k = absurd (omega arith)
  drain_for-enough (suc n) (suc m) buf h k = elim (Option-cases (partition sep buf)) [
    | inl nothing ↦ rw (nothing, drain_for) refl
    | inr ((f, r), found) ↦
        let shorter = parted-length sep buf f r found in
        rw (found, drain_for)
          (ap (cons_first f) (drain_for-enough n m r (omega arith) (omega arith)))
  ]

  drain_for-append :
      (n : ℕ) (buf more : Bytes)
      → length (buf ++ more) ≤ n
      → drain_for n sep (buf ++ more) ≡ drain_more sep (drain_for n sep buf) more
  unfolding drain_for drain
  drain_for-append zero buf more h =
      drain_for-enough zero (length (buf ++ more)) (buf ++ more) h (omega arith)
  drain_for-append (suc n) buf more h = elim (Option-cases (partition sep buf)) [
    | inl nothing ↦
        rw (nothing, drain_for)
          (drain_for-enough (suc n) (length (buf ++ more)) (buf ++ more) h (omega arith))
    | inr ((f, r), found) ↦
        let shorter = parted-length sep buf f r found in
        let fits : length (r ++ more) ≤ n =
          omega (arith, length-append r more, length-append buf more) in
        rw (found, partition-append sep buf more f r found, drain_for)
          (ap (cons_first f) (drain_for-append n r more fits))
  ]

  -- To drain bytes that came in two parts, drain the first part, and then what it left together with
  -- the second.
  pub drain-append :
      (buf more : Bytes) → drain sep (buf ++ more) ≡ drain_more sep (drain sep buf) more
  unfolding drain
  drain-append buf more =
      drain_for-append (length (buf ++ more)) buf more (omega arith)
      ∙ ap (λ p. drain_more sep p more)
          (drain_for-enough (length (buf ++ more)) (length buf) buf
            (omega (arith, length-append buf more)) (omega arith))

  -- What is left has no separator any more: the test of the loop fails.
  partition-drain_for :
      (n : ℕ) (buf : Bytes) → length buf ≤ n → partition sep (drain_for n sep buf).1 ≡ none
  unfolding drain_for partition
  partition-drain_for zero [] h = refl
  partition-drain_for zero (b ∷ buf) h = absurd (omega arith)
  partition-drain_for (suc n) buf h = elim (Option-cases (partition sep buf)) [
    | inl nothing ↦ rw (nothing, drain_for) nothing
    | inr ((f, r), found) ↦
        let shorter = parted-length sep buf f r found in
        rw (found, drain_for) (partition-drain_for n r (omega arith))
  ]

  drain_done : (n : ℕ) (buf : Bytes) → partition sep buf ≡ none → drain_for n sep buf ≡ ([], buf)
  unfolding drain_for
  drain_done zero buf e = refl
  drain_done (suc n) buf e = rw (e, drain_for) refl

  pub drain-none : (buf : Bytes) → partition sep buf ≡ none → drain sep buf ≡ ([], buf)
  unfolding drain
  drain-none buf = drain_done (length buf) buf

  unframe-drain_for : (n : ℕ) (buf : Bytes) → unframe sep (drain_for n sep buf) ≡ buf
  unfolding drain_for
  unframe-drain_for zero buf = refl
  unframe-drain_for (suc n) buf = elim (Option-cases (partition sep buf)) [
    | inl nothing ↦ rw (nothing, drain_for) refl
    | inr ((f, r), found) ↦
        let parted : Parted sep buf (partition sep buf) = partition-Parted sep buf in
        let whole : Parted sep buf (some (f, r)) = rw found at parted in
        rw (found, drain_for) (ap (λ s. f ++ sep ++ s) (unframe-drain_for n r) ∙ whole)
  ]

  -- The frames with their separators, and what is left behind the last, are all the bytes; what is left
  -- has no separator.
  pub drain-whole :
      (buf : Bytes) → (unframe sep (drain sep buf) ≡ buf) × (partition sep (drain sep buf).1 ≡ none)
  unfolding drain
  drain-whole buf =
      (unframe-drain_for (length buf) buf, partition-drain_for (length buf) buf (omega arith))
