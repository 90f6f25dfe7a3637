-- ===== src/Tools/Sse/Streaming.antt =====
-- tools/sse_probe.py: `stream`, which holds one subscriber open. What the clock and the socket say is an
-- argument: the turns of the read loop, each with the times that the code reads. Times are in
-- milliseconds.
use homeassistant_2gig_gc.Prelude.{
  ℕ, suc, ◌+◌, ◌-◌, Bool, true, false, not, ◌&&◌, ◌||◌, Option, none, some, List, [], ◌∷◌, ◌++◌,
  Text, codes, text_Eq, Dict, length, take, contains, any, is_empty, filter, split, is_in, nat_eq,
  leb, ltb, or_default, get, if◌then◌else◌,
}
use homeassistant_2gig_gc.Tools.Sse.Framing.{Bytes, drain, separator}
use homeassistant_2gig_gc.Tools.Sse.Frames.{StreamResult, new_result, record_frames}

-- What one `read` gives: no bytes before it timed out, and when that is noticed; an
-- `aiohttp.ClientError` with its text; or a chunk, empty at the end of the stream, and when it came.
pub data Outcome : Type 0 where
  silent : ℕ → Outcome
  broke : Text → Outcome
  arrived : Bytes → ℕ → Outcome

-- One pass through the read loop: the time at its test, and its `read`.
pub record Turn : Type 0 where
  pub before : ℕ
  pub outcome : Outcome

-- The variables of the loop.
pub record Reader : Type 0 where
  pub result : StreamResult
  pub buf : Bytes
  pub last : ℕ

-- How one pass through the loop ends: by leaving it, with the text of an error if there is one, or by
-- going on.
pub data Pass : Type 0 where
  stopped : Reader → Option Text → Pass
  going : Reader → Pass

abbrev pub or_go : Pass → (Reader → Reader × Option Text) → Reader × Option Text
or_go (stopped r e) go = (r, e)
or_go (going r) go = go r

-- The constants of the loop: whether frames end at a blank line, and the deadline.
pub record Window : Type 0 where
  pub blank_framed : Bool
  pub deadline : ℕ

-- `args.framing in ("auto", "blank")`
abbrev pub is_blank_framed : Text → Bool
is_blank_framed framing = contains (codes "auto" ∷ codes "blank" ∷ []) framing

abbrev pub larger : ℕ → ℕ → ℕ
larger a b = if ltb a b then b else a

-- The counts and times of a chunk.
unfoldable pub count_chunk : Bytes → ℕ → ℕ → StreamResult → StreamResult
count_chunk chunk now gap res = record res {
  chunks = res.chunks + 1;
  bytes_read = res.bytes_read + length chunk;
  max_gap = larger res.max_gap gap;
  first_frame_at = some (or_default res.first_frame_at now);
  last_frame_at = some now;
}

module _ (decode : Bytes → Text) (window : Window) where
  -- The part of the loop body behind a chunk that is not empty.
  unfoldable pub take_chunk : Bytes → ℕ → Reader → Reader
  unfolding count_chunk
  take_chunk chunk now r =
      let res = count_chunk chunk now (now - r.last) r.result in
      let (frames, rest) = drain (separator window.blank_framed) (r.buf ++ chunk) in
      record {
        result = record_frames decode (nat_eq res.chunks 1) res frames;
        buf = rest;
        last = now;
      }

  -- `except TimeoutError` of a `read`
  abbrev pub note_silence : ℕ → Reader → Reader
  note_silence now r =
      if ltb (now + 1000) window.deadline
      then record r { result = record r.result { read_timed_out = true } }
      else r

  abbrev pub note_closed : Reader → Reader
  note_closed r = record r { result = record r.result { closed_by_server = true } }

  -- The body of the read loop, behind its test.
  unfoldable pub read_turn : Outcome → Reader → Pass
  unfolding take_chunk
  read_turn (silent now) r = stopped (note_silence now r) none
  read_turn (broke m) r = stopped r (some m)
  read_turn (arrived [] now) r = stopped (note_closed r) none
  read_turn (arrived (b ∷ chunk) now) r = going (take_chunk (b ∷ chunk) now r)

  -- One pass through the read loop.
  unfoldable pub read_pass : Turn → Reader → Pass
  unfolding read_turn
  read_pass t r = if leb window.deadline t.before then stopped r none else read_turn t.outcome r

  -- The read loop: how it left the variables, and the text of an error that ended it.
  unfoldable pub read_loop : List Turn → Reader → Reader × Option Text
  unfolding read_pass
  read_loop [] r = (r, none)
  read_loop (t ∷ turns) r = or_go (read_pass t r) (λ r'. read_loop turns r')

  -- `line.strip()`, as a test, on bytes
  abbrev pub has_text : Bytes → Bool
  has_text = any (λ b. not ((leb 9 b && leb b 13) || nat_eq b 32))

  -- What is done with the bytes that never made a frame.
  unfoldable pub finish_buffer : Reader → StreamResult
  finish_buffer r =
      if is_empty r.buf
      then r.result
      else if window.blank_framed && is_in (10 ∷ []) r.buf
      then record_frames decode (leb r.result.chunks 1) r.result (filter has_text (split 10 r.buf))
      else record r.result { residue = decode r.buf }

  -- The silence and the time at the end of the window.
  unfoldable pub note_close : ℕ → ℕ → ℕ → StreamResult → StreamResult
  note_close opened_at last now res = record res {
    silence_at_close = now - last;
    max_gap = larger res.max_gap (now - last);
    open_for = now - opened_at;
  }

  abbrev pub end_window : ℕ → ℕ → Reader × Option Text → StreamResult
  end_window opened_at now (r, none) = note_close opened_at r.last now (finish_buffer r)
  end_window opened_at now (r, some m) = record r.result { error = m }

  -- The variables before the read loop.
  abbrev pub opening : ℕ → StreamResult → Reader
  opening opened_at res = record {
    result = record res { connected = true };
    buf = [];
    last = opened_at;
  }

  -- The window of an accepted subscriber, from its opening to its end.
  unfoldable pub hold : ℕ → List Turn → ℕ → StreamResult → StreamResult
  unfolding read_loop finish_buffer note_close
  hold opened_at turns now res = end_window opened_at now (read_loop turns (opening opened_at res))

-- What an attempt to subscribe that was answered meets: `cut` is the text of the error that `r.text()`
-- raises, if it does. With it the times that the code reads: when the deadline is set, at the test for a retry, after the pause, and around the read loop.
pub record Answer : Type 0 where
  pub status : ℕ
  pub headers : Dict Text Text
  pub body : Text
  pub cut : Option Text
  pub started : ℕ
  pub checked : ℕ
  pub resumed : ℕ
  pub opened_at : ℕ
  pub turns : List Turn
  pub closing : ℕ

-- A timeout or an error of the connection with its text, or an answer.
pub data Attempt : Type 0 where
  no_answer : Text → Attempt
  answered : Answer → Attempt

-- The fields that come with an answer.
abbrev pub note_answer : Answer → StreamResult → StreamResult
note_answer a res = record res {
  status = some a.status;
  headers = a.headers;
  content_type = or_default (get a.headers (codes "Content-Type")) [];
}

abbrev pub refused : Text → Answer → StreamResult
refused label a =
    let res = note_answer a (new_result label) in
    record res { error = or_default a.cut (take 300 a.body) }

-- The body was read, and the code comes to the test for a retry.
abbrev pub may_retry : Answer → Bool
may_retry a = elim a.cut [ none ↦ true | some m ↦ false ]

abbrev pub failed_attempt : Text → Text → StreamResult
failed_attempt label m = let res = new_result label in record res { error = m }

module _ (decode : Bytes → Text) (framing label : Text) where
  abbrev pub accepted : ℕ → Answer → StreamResult
  accepted seconds a =
      hold decode
        (record { blank_framed = is_blank_framed framing; deadline = a.started + seconds })
        a.opened_at a.turns a.closing (note_answer a (new_result label))

  abbrev pub on_answer : Attempt → (Answer → StreamResult) → StreamResult
  on_answer (no_answer m) go = failed_attempt label m
  on_answer (answered a) go = go a

  -- `stream` behind its delay: `attempts n` is the attempt with `n` retries left. A window that the
  -- pause has used up is one of no seconds.
  unfoldable pub stream : (ℕ → Attempt) → ℕ → ℕ → ℕ → StreamResult
  stream attempts retry_after ℕ.zero seconds =
      on_answer (attempts 0) λ a. if leb 400 a.status then refused label a else accepted seconds a
  stream attempts retry_after (suc retries) seconds = on_answer (attempts (suc retries)) λ a.
      if leb 400 a.status
      then if may_retry a && ltb (a.checked + retry_after) (a.started + seconds)
        then stream attempts retry_after retries (a.started + seconds - a.resumed)
        else refused label a
      else accepted seconds a
