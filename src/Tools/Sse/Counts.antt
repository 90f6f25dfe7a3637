-- ===== src/Tools/Sse/Counts.antt =====
-- The counts and samples of a subscriber.
use homeassistant_2gig_gc.Prelude.{
  ℕ, zero, suc, ◌+◌, ◌-◌, refl, ◌&&◌, Option, none, some, List, [], ◌∷◌, Text, is_in, is_empty, leb,
  ltb, nat_eq, if-cases, arith,
}
use homeassistant_2gig_gc.Tools.Sse.{
  may_retry, Bytes, StreamResult, new_result, Outcome, silent, broke, arrived, Turn, Reader, Window,
  Pass, stopped, going, note_silence, read_turn, read_pass, take_chunk, read_loop, finish_buffer,
  note_close, hold, end_window, Attempt, no_answer, answered, stream, or_go, opening, on_answer,
  refused, accepted, note_answer, Answer, is_blank_framed,
}
use homeassistant_2gig_gc.Tools.Sse.Counting.{IsCounted, record_frames-IsCounted}

module _ (decode : Bytes → Text) (window : Window) where
  take_chunk-IsCounted :
      (chunk : Bytes) (now : ℕ) (r : Reader)
      → IsCounted r.result
      → IsCounted (take_chunk decode window chunk now r).result
  unfolding take_chunk
  take_chunk-IsCounted chunk now r h =
      record_frames-IsCounted decode (nat_eq (r.result.chunks + 1) 1) _ _
        (λ few. ground (arith, few))
        (record {
          counted = h.counted;
          quiet = λ few. h.quiet (omega (arith, few));
          sampled = h.sampled;
          short = h.short;
        })

  abbrev CountedPass : Pass → Type 0
  CountedPass (stopped r e) = IsCounted r.result
  CountedPass (going r) = IsCounted r.result

  note_silence-IsCounted :
      (now : ℕ) (r : Reader)
      → IsCounted r.result
      → IsCounted (note_silence decode window now r).result
  note_silence-IsCounted now r h =
      if-cases (λ (r' : Reader). IsCounted r'.result) (ltb (now + 1000) window.deadline) _ _
        (λ e. record { counted = h.counted; quiet = h.quiet; sampled = h.sampled; short = h.short })
        (λ e. h)

  read_turn-IsCounted :
      (o : Outcome) (r : Reader) → IsCounted r.result → CountedPass (read_turn decode window o r)
  unfolding read_turn
  read_turn-IsCounted (silent now) r h = note_silence-IsCounted now r h
  read_turn-IsCounted (broke m) r h = h
  read_turn-IsCounted (arrived [] now) r h = record {
    counted = h.counted;
    quiet = h.quiet;
    sampled = h.sampled;
    short = h.short;
  }
  read_turn-IsCounted (arrived (b ∷ chunk) now) r h = take_chunk-IsCounted (b ∷ chunk) now r h

  read_pass-IsCounted :
      (t : Turn) (r : Reader) → IsCounted r.result → CountedPass (read_pass decode window t r)
  unfolding read_pass
  read_pass-IsCounted t r h =
      if-cases CountedPass (leb window.deadline t.before) _ _ (λ e. h)
        (λ e. read_turn-IsCounted t.outcome r h)

  or_go-IsCounted :
      (p : Pass) (go : Reader → Reader × Option Text)
      → CountedPass p
      → ((r : Reader) → IsCounted r.result → IsCounted (go r).0.result)
      → IsCounted (or_go p go).0.result
  or_go-IsCounted (stopped r e) go h k = h
  or_go-IsCounted (going r) go h k = k r h

  read_loop-IsCounted :
      (turns : List Turn) (r : Reader)
      → IsCounted r.result
      → IsCounted (read_loop decode window turns r).0.result
  unfolding read_loop
  read_loop-IsCounted [] r h = h
  read_loop-IsCounted (t ∷ turns) r h =
      or_go-IsCounted (read_pass decode window t r) _ (read_pass-IsCounted t r h)
        (λ r'. read_loop-IsCounted turns r')

  finish_buffer-IsCounted :
      (r : Reader) → IsCounted r.result → IsCounted (finish_buffer decode window r)
  unfolding finish_buffer
  finish_buffer-IsCounted r h =
      if-cases IsCounted (is_empty r.buf) _ _ (λ e. h)
        (λ e.
          if-cases IsCounted (window.blank_framed && is_in (10 ∷ []) r.buf) _ _
            (λ e.
              record_frames-IsCounted decode (leb r.result.chunks 1) r.result _
                (λ few. ground (arith, few)) h)
            (λ e. record {
              counted = h.counted;
              quiet = h.quiet;
              sampled = h.sampled;
              short = h.short;
            }))

  end_window-IsCounted :
      (opened_at now : ℕ) (p : Reader × Option Text)
      → IsCounted p.0.result
      → IsCounted (end_window decode window opened_at now p)
  unfolding note_close
  end_window-IsCounted opened_at now (r, none) h =
      let f = finish_buffer-IsCounted r h in
      record { counted = f.counted; quiet = f.quiet; sampled = f.sampled; short = f.short }
  end_window-IsCounted opened_at now (r, some m) h = record {
    counted = h.counted;
    quiet = h.quiet;
    sampled = h.sampled;
    short = h.short;
  }

  hold-IsCounted :
      (opened_at : ℕ) (turns : List Turn) (now : ℕ) (res : StreamResult)
      → IsCounted res
      → IsCounted (hold decode window opened_at turns now res)
  unfolding hold
  hold-IsCounted opened_at turns now res h =
      let start = opening decode window opened_at res in
      end_window-IsCounted opened_at now (read_loop decode window turns start) (
        read_loop-IsCounted turns start
          (record { counted = h.counted; quiet = h.quiet; sampled = h.sampled; short = h.short }))

module _ (decode : Bytes → Text) (framing label : Text) where
  on_answer-IsCounted :
      (attempt : Attempt) (go : Answer → StreamResult)
      → ((a : Answer) → IsCounted (go a))
      → IsCounted (on_answer decode framing label attempt go)
  on_answer-IsCounted (no_answer m) go k = record {
    counted = omega arith;
    quiet = λ few. refl;
    sampled = omega arith;
    short = tt;
  }
  on_answer-IsCounted (answered a) go k = k a

  refused-IsCounted : (a : Answer) → IsCounted (refused label a)
  refused-IsCounted a = record {
    counted = omega arith;
    quiet = λ few. refl;
    sampled = omega arith;
    short = tt;
  }

  accepted-IsCounted :
      (seconds : ℕ) (a : Answer) → IsCounted (accepted decode framing label seconds a)
  accepted-IsCounted seconds a =
      hold-IsCounted decode
        (record { blank_framed = is_blank_framed framing; deadline = a.started + seconds })
        a.opened_at a.turns a.closing (note_answer a (new_result label))
        (record { counted = omega arith; quiet = λ few. refl; sampled = omega arith; short = tt })

  -- Whatever the panel sends and however its attempts go: a subscriber counts no more events than
  -- frames, none at all unless a second chunk arrived, and keeps at most 8 samples of at most 1500
  -- characters.
  pub stream-IsCounted :
      (attempts : ℕ → Attempt) (retry_after retries seconds : ℕ)
      → IsCounted (stream decode framing label attempts retry_after retries seconds)
  unfolding stream
  stream-IsCounted attempts retry_after zero seconds = on_answer-IsCounted (attempts 0) _ λ a.
      if-cases IsCounted (leb 400 a.status) _ _ (λ e. refused-IsCounted a)
        (λ e. accepted-IsCounted seconds a)
  stream-IsCounted attempts retry_after (suc retries) seconds =
      on_answer-IsCounted (attempts (suc retries)) _ λ a.
        if-cases IsCounted (leb 400 a.status) _ _
          (λ e.
            if-cases IsCounted (may_retry a && ltb (a.checked + retry_after) (a.started + seconds))
              _ _
              (λ e. stream-IsCounted attempts retry_after retries (a.started + seconds - a.resumed))
              (λ e. refused-IsCounted a))
          (λ e. accepted-IsCounted seconds a)
