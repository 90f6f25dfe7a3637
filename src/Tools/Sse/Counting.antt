-- ===== src/Tools/Sse/Counting.antt =====
-- The counts and samples of `StreamResult` over frames.
use homeassistant_2gig_gc.Prelude.{
  ℕ, zero, suc, ◌≤◌, ◌≡◌, refl, Bool, true, List, [], ◌∷◌, ◌++◌, Text, All, length, length-append,
  take, ltb, strip, if-cases, arith,
}
use homeassistant_2gig_gc.Tools.Sse.{
  Bytes, StreamResult, record_text, record_frame, record_frames, unless_empty,
}

-- No more events than frames, none of them before a second chunk, and at most 8 samples of at most
-- 1500 characters.
pub record IsCounted (res : StreamResult) : Type 0 where
  pub counted : res.events ≤ res.frames
  pub quiet : res.chunks ≤ 1 → res.events ≡ 0
  pub sampled : length res.samples ≤ 8
  pub short : All (λ s. length s ≤ 1500) res.samples

length-take {ℓ} : {A : Type ℓ} (n : ℕ) (xs : List A) → length (take n xs) ≤ n
length-take zero xs = omega arith
length-take (suc n) [] = omega arith
length-take (suc n) (x ∷ xs) = omega (arith, length-take n xs)

All-append_one {ℓ κ} :
    {A : Type ℓ} (P : A → Type κ) (xs : List A) (x : A) → All P xs → P x → All P (xs ++ x ∷ [])
All-append_one P [] x h p = (p, tt)
All-append_one P (y ∷ xs) x h p = (h.0, All-append_one P xs x h.1 p)

record_text-IsCounted :
    (preamble : Bool) (res : StreamResult) (text : Text)
    → (res.chunks ≤ 1 → preamble ≡ true)
    → IsCounted res
    → IsCounted (record_text preamble res text)
unfolding record_text
record_text-IsCounted preamble res text greets h = record {
  counted = ground (arith, h.counted);
  quiet = λ few. ground (arith, greets few, h.quiet few);
  sampled = ground (arith, h.sampled, length-append res.samples (take 1500 text ∷ []));
  short =
      if-cases (All (λ s. length s ≤ 1500)) (ltb (length res.samples) 8) _ _
        (λ e.
          All-append_one (λ s. length s ≤ 1500) res.samples (take 1500 text) h.short
            (length-take 1500 text))
        (λ e. h.short);
}

record_text-chunks :
    (preamble : Bool) (res : StreamResult) (text : Text)
    → (record_text preamble res text).chunks ≡ res.chunks
unfolding record_text
record_text-chunks preamble res text = refl

module _ (decode : Bytes → Text) (preamble : Bool) where
  unless_empty-IsCounted :
      (res : StreamResult) (text : Text)
      → (res.chunks ≤ 1 → preamble ≡ true)
      → IsCounted res
      → IsCounted (unless_empty preamble res text)
  unless_empty-IsCounted res [] greets h = h
  unless_empty-IsCounted res (c ∷ text) greets h =
      record_text-IsCounted preamble res (c ∷ text) greets h

  unless_empty-chunks :
      (res : StreamResult) (text : Text) → (unless_empty preamble res text).chunks ≡ res.chunks
  unless_empty-chunks res [] = refl
  unless_empty-chunks res (c ∷ text) = record_text-chunks preamble res (c ∷ text)

  pub record_frames-IsCounted :
      (res : StreamResult) (raws : List Bytes)
      → (res.chunks ≤ 1 → preamble ≡ true)
      → IsCounted res
      → IsCounted (record_frames decode preamble res raws)
  unfolding record_frames
  record_frames-IsCounted res [] greets h = h
  record_frames-IsCounted res (raw ∷ raws) greets h =
      let same = unless_empty-chunks res (strip (decode raw)) in
      record_frames-IsCounted (record_frame decode preamble res raw) raws
        (λ few. greets (omega (arith, same)))
        (unless_empty-IsCounted res (strip (decode raw)) greets h)
