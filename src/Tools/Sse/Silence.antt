-- ===== src/Tools/Sse/Silence.antt =====
-- The longest silence of a window.
use homeassistant_2gig_gc.Prelude.{
  ℕ, ◌+◌, ◌-◌, ◌≡◌, refl, ap, ◌∙◌, inl, inr, Bool, Option, none, some, List, [], ◌∷◌, ◌++◌, Text,
  filter, split, leb, ltb, nat_eq, strip, Bool-cases, if-cases, arith, if◌then◌else◌,
}
use homeassistant_2gig_gc.Tools.Sse.{
  Bytes, StreamResult, record_text, record_frame, record_frames, unless_empty, drain, separator,
  Outcome, silent, broke, arrived, Turn, Reader, Window, take_chunk, count_chunk, read_turn,
  read_pass, read_loop, finish_buffer, note_close, hold, end_window, or_go, opening, has_text,
  larger,
}

max_gap-unless_empty :
    (preamble : Bool) (res : StreamResult) (text : Text)
    → (unless_empty preamble res text).max_gap ≡ res.max_gap
unfolding record_text
max_gap-unless_empty preamble res [] = refl
max_gap-unless_empty preamble res (c ∷ text) = refl

larger_assoc : (a b c : ℕ) → larger (larger a b) c ≡ larger a (larger b c)
larger_assoc a b c = ground arith

-- The longest of the times from one arrival to the next, and from the last to the end.
abbrev pub longest : ℕ → List ℕ → ℕ → ℕ
longest last [] closing = closing - last
longest last (now ∷ times) closing = larger (now - last) (longest now times closing)

abbrev heard_turn : Outcome → List ℕ → List ℕ
heard_turn (arrived (b ∷ chunk) now) times = now ∷ times
heard_turn _ times = []

module _ (decode : Bytes → Text) where
  max_gap-record_frames :
      (preamble : Bool) (res : StreamResult) (raws : List Bytes)
      → (record_frames decode preamble res raws).max_gap ≡ res.max_gap
  unfolding record_frames
  max_gap-record_frames preamble res [] = refl
  max_gap-record_frames preamble res (raw ∷ raws) =
      max_gap-record_frames preamble (record_frame decode preamble res raw) raws
      ∙ max_gap-unless_empty preamble res (strip (decode raw))

module _ (decode : Bytes → Text) (window : Window) where
  -- The times of the chunks that the loop reads.
  abbrev pub heard : List Turn → List ℕ
  heard [] = []
  heard (t ∷ turns) =
      let times = heard turns in
      if leb window.deadline t.before then [] else heard_turn t.outcome times

  -- The longest silence, if the window closed now.
  abbrev gap_at : ℕ → Reader → ℕ
  gap_at closing r = larger r.result.max_gap (closing - r.last)

  abbrev Spans : ℕ → (Reader → Reader × Option Text) → List ℕ → Type 0
  Spans closing go times =
      (r : Reader)
      → gap_at closing (go r).0 ≡ larger r.result.max_gap (longest r.last times closing)

  take_chunk-gap :
      (chunk : Bytes) (now : ℕ) (r : Reader)
      → (take_chunk decode window chunk now r).result.max_gap
        ≡ larger r.result.max_gap (now - r.last)
  unfolding take_chunk count_chunk
  take_chunk-gap chunk now r =
      max_gap-record_frames decode (nat_eq (r.result.chunks + 1) 1)
        (count_chunk chunk now (now - r.last) r.result)
        (drain (separator window.blank_framed) (r.buf ++ chunk)).0

  read_turn-Spans :
      (closing : ℕ) (o : Outcome) (times : List ℕ) (go : Reader → Reader × Option Text)
      → Spans closing go times
      → Spans closing (λ r. or_go (read_turn decode window o r) go) (heard_turn o times)
  unfolding read_turn take_chunk
  read_turn-Spans closing (silent now) times go k r =
      if-cases (λ r'. gap_at closing r' ≡ gap_at closing r) (ltb (now + 1000) window.deadline) _ _
        (λ e. refl) (λ e. refl)
  read_turn-Spans closing (broke m) times go k r = refl
  read_turn-Spans closing (arrived [] now) times go k r = refl
  read_turn-Spans closing (arrived (b ∷ chunk) now) times go k r =
      k (take_chunk decode window (b ∷ chunk) now r)
      ∙ ap (λ g. larger g (longest now times closing)) (take_chunk-gap (b ∷ chunk) now r)
      ∙ larger_assoc r.result.max_gap (now - r.last) (longest now times closing)

  read_loop-Spans :
      (closing : ℕ) (turns : List Turn)
      → Spans closing (read_loop decode window turns) (heard turns)
  unfolding read_loop read_pass
  read_loop-Spans closing [] r = refl
  read_loop-Spans closing (t ∷ turns) r = elim (Bool-cases (leb window.deadline t.before)) [
    | inl late ↦ rw late refl
    | inr early ↦ rw early (
        read_turn-Spans closing t.outcome (heard turns) (read_loop decode window turns)
          (read_loop-Spans closing turns) r)
  ]

  max_gap-finish_buffer : (r : Reader) → (finish_buffer decode window r).max_gap ≡ r.result.max_gap
  unfolding finish_buffer
  max_gap-finish_buffer r = ground (
    arith,
    max_gap-record_frames decode (leb r.result.chunks 1) r.result
        (filter (has_text decode window) (split 10 r.buf)),
  )

  end_window-gap :
      (opened_at closing : ℕ) (p : Reader × Option Text)
      → p.1 ≡ none
      → (end_window decode window opened_at closing p).max_gap ≡ gap_at closing p.0
  unfolding note_close
  end_window-gap opened_at closing (r, none) e =
      ap (λ g. larger g (closing - r.last)) (max_gap-finish_buffer r)
  end_window-gap opened_at closing (r, some m) e = cc

  -- Where no error of the connection ends the window, its longest silence is the longest time between
  -- two chunks in a row, the opening of the window and its end counted in: a stream that falls silent
  -- is measured to the end.
  pub hold-longest :
      (opened_at closing : ℕ) (turns : List Turn) (res : StreamResult)
      → (read_loop decode window turns (opening decode window opened_at res)).1 ≡ none
      → res.max_gap ≡ 0
      → (hold decode window opened_at turns closing res).max_gap
        ≡ longest opened_at (heard turns) closing
  unfolding hold
  hold-longest opened_at closing turns res h fresh =
      let start = opening decode window opened_at res in
      end_window-gap opened_at closing (read_loop decode window turns start) h
      ∙ read_loop-Spans closing turns start
      ∙ ground (arith, fresh)
