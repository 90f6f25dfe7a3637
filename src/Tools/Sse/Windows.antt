-- ===== src/Tools/Sse/Windows.antt =====
-- What a subscriber records does not depend on how the bytes came in chunks.
use mathlib.Core.List.{append_assoc, append-nil}
use homeassistant_2gig_gc.Prelude.{
  ℕ, ◌+◌, ◌-◌, ◌≤◌, ◌≡◌, refl, ap, sym, ◌∙◌, inl, inr, Bool, true, false, ◌&&◌, Option, none, some,
  List, [], ◌∷◌, ◌++◌, Text, filter, split, is_in, is_empty, length, leb, ltb, nat_eq, Bool-cases,
  if-cases, arith, if◌then◌else◌,
}
use homeassistant_2gig_gc.Tools.Sse.{
  Bytes, StreamResult, drain, partition, separator, Outcome, silent, broke, arrived, Turn, Reader,
  Window, count_chunk, take_chunk, read_turn, read_pass, read_loop, finish_buffer, note_close, hold,
  end_window, or_go, opening, has_text, note_silence,
}
use homeassistant_2gig_gc.Tools.Sse.Content.{
  Content, content_of, note_frames, content-record_frames, note_frames-append,
}
use homeassistant_2gig_gc.Tools.Sse.Chunks.{drain-append, drain-none, drain-whole}

-- The bytes of a turn, behind which the rest comes if the loop goes on.
abbrev pub received_turn : Outcome → Bytes → Bytes
received_turn (arrived (b ∷ chunk) now) rest = (b ∷ chunk) ++ rest
received_turn _ rest = []

separator-present : (blank_framed : Bool) → 1 ≤ length (separator blank_framed)
separator-present true = omega arith
separator-present false = omega arith

module _ (decode : Bytes → Text) (window : Window) where
  -- All bytes that the loop reads.
  abbrev pub received : List Turn → Bytes
  received [] = []
  received (t ∷ turns) =
      let rest = received turns in
      if leb window.deadline t.before then [] else received_turn t.outcome rest

  abbrev sep : Bytes
  sep = separator window.blank_framed

  present : 1 ≤ length sep
  present = separator-present window.blank_framed

  -- The content and the buffer after more bytes.
  abbrev after_bytes : Content × Bytes → Bytes → Content × Bytes
  after_bytes (s, buf) more =
      let (frames, left) = drain sep (buf ++ more) in (note_frames decode s frames, left)

  abbrev state_of : Reader → Content × Bytes
  state_of r = (content_of r.result, r.buf)

  take_chunk-state :
      (chunk : Bytes) (now : ℕ) (r : Reader)
      → state_of (take_chunk decode window chunk now r) ≡ after_bytes (state_of r) chunk
  unfolding take_chunk
  take_chunk-state chunk now r =
      let (frames, left) = drain sep (r.buf ++ chunk) in
      ap (λ s. (s, left))
        (content-record_frames decode (nat_eq (r.result.chunks + 1) 1)
          (count_chunk chunk now (now - r.last) r.result) frames)

  after_bytes-append :
      (x : Content × Bytes) (chunk more : Bytes)
      → after_bytes (after_bytes x chunk) more ≡ after_bytes x (chunk ++ more)
  after_bytes-append (s, buf) chunk more =
      let (frames, rest) = drain sep (buf ++ chunk) in
      let (later, left) = drain sep (rest ++ more) in
      ap (λ t. (t, left)) (sym (note_frames-append decode s frames later))
      ∙ ap (λ p. (note_frames decode s p.0, p.1))
          (sym (drain-append sep present (buf ++ chunk) more)
            ∙ ap (drain sep) (append_assoc buf chunk more))

  after_bytes-nil :
      (s : Content) (buf : Bytes) → partition sep buf ≡ none → after_bytes (s, buf) [] ≡ (s, buf)
  after_bytes-nil s buf e =
      ap (λ p. (note_frames decode s p.0, p.1))
        (ap (drain sep) (append-nil buf) ∙ drain-none sep present buf e)

  take_chunk-drained :
      (chunk : Bytes) (now : ℕ) (r : Reader)
      → partition sep (take_chunk decode window chunk now r).buf ≡ none
  unfolding take_chunk
  take_chunk-drained chunk now r = (drain-whole sep present (r.buf ++ chunk)).1

  -- What the loop makes of the bytes, where it goes on.
  abbrev Follows : (Reader → Reader × Option Text) → Bytes → Type 0
  Follows go rest =
      (r : Reader) → partition sep r.buf ≡ none → state_of (go r).0 ≡ after_bytes (state_of r) rest

  note_silence-state :
      (now : ℕ) (r : Reader) → state_of (note_silence decode window now r) ≡ state_of r
  note_silence-state now r =
      if-cases (λ r'. state_of r' ≡ state_of r) (ltb (now + 1000) window.deadline) _ _ (λ e. refl)
        (λ e. refl)

  read_turn-state :
      (o : Outcome) (rest : Bytes) (go : Reader → Reader × Option Text)
      → Follows go rest
      → Follows (λ r. or_go (read_turn decode window o r) go) (received_turn o rest)
  unfolding read_turn
  read_turn-state (silent now) rest go k r e =
      note_silence-state now r ∙ sym (after_bytes-nil (content_of r.result) r.buf e)
  read_turn-state (broke m) rest go k r e = sym (after_bytes-nil (content_of r.result) r.buf e)
  read_turn-state (arrived [] now) rest go k r e =
      sym (after_bytes-nil (content_of r.result) r.buf e)
  read_turn-state (arrived (b ∷ chunk) now) rest go k r e =
      k (take_chunk decode window (b ∷ chunk) now r) (take_chunk-drained (b ∷ chunk) now r)
      ∙ ap (λ x. after_bytes x rest) (take_chunk-state (b ∷ chunk) now r)
      ∙ after_bytes-append (state_of r) (b ∷ chunk) rest

  read_loop-state : (turns : List Turn) → Follows (read_loop decode window turns) (received turns)
  unfolding read_loop read_pass
  read_loop-state [] r e = sym (after_bytes-nil (content_of r.result) r.buf e)
  read_loop-state (t ∷ turns) r e = elim (Bool-cases (leb window.deadline t.before)) [
    | inl late ↦ rw late (sym (after_bytes-nil (content_of r.result) r.buf e))
    | inr early ↦ rw early (
        read_turn-state t.outcome (received turns) (read_loop decode window turns)
          (read_loop-state turns) r e)
  ]

  -- The content at the end of a window.
  abbrev finished : Content × Bytes → Content
  finished (s, buf) =
      if is_empty buf
      then s
      else if window.blank_framed && is_in (10 ∷ []) buf
      then note_frames decode s (filter (has_text decode window) (split 10 buf))
      else record s { residue = decode buf }

  finish_buffer-content :
      (r : Reader) → content_of (finish_buffer decode window r) ≡ finished (state_of r)
  unfolding finish_buffer
  finish_buffer-content r = ground (
    arith,
    content-record_frames decode (leb r.result.chunks 1) r.result
        (filter (has_text decode window) (split 10 r.buf)),
  )

  end_window-content :
      (opened_at now : ℕ) (p : Reader × Option Text)
      → p.1 ≡ none
      → content_of (end_window decode window opened_at now p) ≡ finished (state_of p.0)
  unfolding note_close
  end_window-content opened_at now (r, none) e = finish_buffer-content r
  end_window-content opened_at now (r, some m) e = cc

  -- The loop was not ended by an error of the connection.
  abbrev pub Unbroken : List Turn → ℕ → StreamResult → Type 0
  Unbroken turns opened_at res =
      (read_loop decode window turns (opening decode window opened_at res)).1 ≡ none

  hold-content :
      (opened_at : ℕ) (turns : List Turn) (now : ℕ) (res : StreamResult)
      → Unbroken turns opened_at res
      → content_of (hold decode window opened_at turns now res)
        ≡ finished (after_bytes (content_of res, []) (received turns))
  unfolding hold partition
  hold-content opened_at turns now res h =
      let start = opening decode window opened_at res in
      end_window-content opened_at now (read_loop decode window turns start) h
      ∙ ap finished (read_loop-state turns start refl)

  -- Two windows in which the same bytes are read, cut into other chunks and at other times, and which
  -- no error of the connection ends, record the same frames, fields, samples and residue.
  pub hold-chunks :
      (res : StreamResult) (turns others : List Turn) (opened now opened' now' : ℕ)
      → Unbroken turns opened res
      → Unbroken others opened' res
      → received turns ≡ received others
      → content_of (hold decode window opened turns now res)
        ≡ content_of (hold decode window opened' others now' res)
  hold-chunks res turns others opened now opened' now' h h' same =
      hold-content opened turns now res h
      ∙ ap (λ bytes. finished (after_bytes (content_of res, []) bytes)) same
      ∙ sym (hold-content opened' others now' res h')
