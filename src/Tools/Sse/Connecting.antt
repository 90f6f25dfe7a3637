-- ===== src/Tools/Sse/Connecting.antt =====
-- When a subscriber gets through.
use homeassistant_2gig_gc.Prelude.{
  ℕ, zero, suc, ◌+◌, ◌*◌, ◌-◌, ◌≤◌, ◌<◌, ◌≡◌, refl, ◌∙◌, inl, inr, Bool, true, false, Option, none,
  some, List, [], ◌∷◌, ◌++◌, Text, filter, split, leb, ltb, nat_eq, strip, Bool-cases, if-cases,
  arith,
}
use homeassistant_2gig_gc.Tools.Sse.{
  Bytes, StreamResult, record_text, record_frame, record_frames, unless_empty, drain, separator,
  Outcome, silent, broke, arrived, Turn, Reader, Window, take_chunk, count_chunk, read_turn,
  read_pass, read_loop, finish_buffer, note_close, hold, end_window, or_go, opening, has_text,
  Answer, Attempt, answered, stream,
}

connected-unless_empty :
    (preamble : Bool) (res : StreamResult) (text : Text)
    → (unless_empty preamble res text).connected ≡ res.connected
unfolding record_text
connected-unless_empty preamble res [] = refl
connected-unless_empty preamble res (c ∷ text) = refl

connected-record_frames :
    (decode : Bytes → Text) (preamble : Bool) (res : StreamResult) (raws : List Bytes)
    → (record_frames decode preamble res raws).connected ≡ res.connected
unfolding record_frames
connected-record_frames decode preamble res [] = refl
connected-record_frames decode preamble res (raw ∷ raws) =
    connected-record_frames decode preamble (record_frame decode preamble res raw) raws
    ∙ connected-unless_empty preamble res (strip (decode raw))

module _ (decode : Bytes → Text) (window : Window) where
  -- A way on in the loop keeps the subscriber connected.
  abbrev Keeps : (Reader → Reader × Option Text) → Type 0
  Keeps go = (r : Reader) → (go r).0.result.connected ≡ r.result.connected

  take_chunk-connected :
      (chunk : Bytes) (now : ℕ) (r : Reader)
      → (take_chunk decode window chunk now r).result.connected ≡ r.result.connected
  unfolding take_chunk count_chunk
  take_chunk-connected chunk now r =
      connected-record_frames decode (nat_eq (r.result.chunks + 1) 1)
        (count_chunk chunk now (now - r.last) r.result)
        (drain (separator window.blank_framed) (r.buf ++ chunk)).0

  read_turn-Keeps :
      (o : Outcome) (go : Reader → Reader × Option Text)
      → Keeps go
      → Keeps (λ r. or_go (read_turn decode window o r) go)
  unfolding read_turn
  read_turn-Keeps (silent now) go k r =
      if-cases (λ (r' : Reader). r'.result.connected ≡ r.result.connected)
        (ltb (now + 1000) window.deadline) _ _ (λ e. refl) (λ e. refl)
  read_turn-Keeps (broke m) go k r = refl
  read_turn-Keeps (arrived [] now) go k r = refl
  read_turn-Keeps (arrived (b ∷ chunk) now) go k r =
      k (take_chunk decode window (b ∷ chunk) now r) ∙ take_chunk-connected (b ∷ chunk) now r

  read_loop-Keeps : (turns : List Turn) → Keeps (read_loop decode window turns)
  unfolding read_loop read_pass
  read_loop-Keeps [] r = refl
  read_loop-Keeps (t ∷ turns) r = elim (Bool-cases (leb window.deadline t.before)) [
    | inl late ↦ rw late refl
    | inr early ↦
        rw early
          (read_turn-Keeps t.outcome (read_loop decode window turns) (read_loop-Keeps turns) r)
  ]

  connected-finish_buffer :
      (r : Reader) → (finish_buffer decode window r).connected ≡ r.result.connected
  unfolding finish_buffer
  connected-finish_buffer r = ground (
    arith,
    connected-record_frames decode (leb r.result.chunks 1) r.result
        (filter (has_text decode window) (split 10 r.buf)),
  )

  end_window-connected :
      (opened_at closing : ℕ) (p : Reader × Option Text)
      → (end_window decode window opened_at closing p).connected ≡ p.0.result.connected
  unfolding note_close
  end_window-connected opened_at closing (r, none) = connected-finish_buffer r
  end_window-connected opened_at closing (r, some m) = refl

  hold-connected :
      (opened_at closing : ℕ) (turns : List Turn) (res : StreamResult)
      → (hold decode window opened_at turns closing res).connected ≡ true
  unfolding hold
  hold-connected opened_at closing turns res =
      let start = opening decode window opened_at res in
      end_window-connected opened_at closing (read_loop decode window turns start)
      ∙ read_loop-Keeps turns start

-- An attempt that is refused, with the pause behind it, within `cost`.
pub record IsRefused (retry_after cost : ℕ) (attempt : Attempt) : Type 0 where
  pub answer : Answer
  pub answers : attempt ≡ answered answer
  pub refuses : leb 400 answer.status ≡ true
  pub whole : answer.cut ≡ none
  pub tested : answer.checked + retry_after < answer.started + cost
  pub back : answer.resumed ≤ answer.started + cost

-- An attempt that is accepted.
pub record IsAccepted (attempt : Attempt) : Type 0 where
  pub answer : Answer
  pub answers : attempt ≡ answered answer
  pub accepts : leb 400 answer.status ≡ false

module _ (decode : Bytes → Text) (framing label : Text) (attempts : ℕ → Attempt)
    (retry_after cost : ℕ) where
  connects_now :
      (retries seconds : ℕ)
      → IsAccepted (attempts retries)
      → (stream decode framing label attempts retry_after retries seconds).connected ≡ true
  unfolding stream
  connects_now zero seconds h =
      rw (h.answers, h.accepts)
        (hold-connected decode _ h.answer.opened_at h.answer.closing h.answer.turns _)
  connects_now (suc retries) seconds h =
      rw (h.answers, h.accepts)
        (hold-connected decode _ h.answer.opened_at h.answer.closing h.answer.turns _)

  connects_after :
      (refusals accepted_at retries seconds : ℕ)
      → retries ≡ accepted_at + refusals
      → ((n : ℕ) → accepted_at < n → n ≤ retries → IsRefused retry_after cost (attempts n))
      → IsAccepted (attempts accepted_at)
      → refusals * cost ≤ seconds
      → (stream decode framing label attempts retry_after retries seconds).connected ≡ true
  unfolding stream
  connects_after zero accepted_at retries seconds e hs h room =
      let same : accepted_at ≡ retries = omega (arith, e) in
      connects_now retries seconds (rw same at h)
  connects_after (suc refusals) accepted_at zero seconds e hs h room = absurd (omega (arith, e))
  connects_after (suc refusals) accepted_at (suc retries) seconds e hs h room =
      let first = hs (suc retries) (omega (arith, e)) (omega arith) in
      let a = first.answer in
      let left : refusals * cost + cost ≤ seconds = omega (arith, room) in
      let again : ltb (a.checked + retry_after) (a.started + seconds) ≡ true =
        ground (arith, left, first.tested) in
      let later : (stream decode framing label attempts retry_after retries
            (a.started + seconds - a.resumed)).connected
          ≡ true =
        connects_after refusals accepted_at retries (a.started + seconds - a.resumed)
          (omega (arith, e)) (λ n lo hi. hs n lo (omega (arith, hi))) h
          (omega (arith, left, first.back)) in
      rw (first.answers, first.refuses, first.whole, again) later

  -- If the panel refuses some attempts, no more than there are retries, each with its pause within
  -- `cost`, and accepts the next, and the window is long enough for all of the refusals, then the
  -- subscriber is connected. `attempts n` is the attempt with `n` retries left.
  pub stream-connects :
      (accepted_at retries seconds : ℕ)
      → accepted_at ≤ retries
      → ((n : ℕ) → accepted_at < n → n ≤ retries → IsRefused retry_after cost (attempts n))
      → IsAccepted (attempts accepted_at)
      → (retries - accepted_at) * cost ≤ seconds
      → (stream decode framing label attempts retry_after retries seconds).connected ≡ true
  stream-connects accepted_at retries seconds few hs h room =
      connects_after (retries - accepted_at) accepted_at retries seconds (omega (arith, few)) hs h
        room
