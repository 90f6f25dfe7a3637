-- ===== src/Witnesses/Streams.antt =====
-- The event-stream probe at concrete windows.
use homeassistant_2gig_gc.Prelude.{
  text_Eq, ℕ, ◌≤◌, ◌<◌, ◌≡◌, refl, arith, true, false, none, some, List, [], ◌∷◌, ◌++◌, Text, codes,
  strip, contains, text_eq,
}
use homeassistant_2gig_gc.Tools.Sse.{
  Bytes, StreamResult, new_result, drain, Turn, Window, arrived, silent, read_loop, opening, hold,
  Answer, Attempt, answered, stream, Poll, poll_status, verdict, record_frames,
}
use homeassistant_2gig_gc.Tools.Sse.Content.{content_of}
use homeassistant_2gig_gc.Tools.Sse.Counting.{IsCounted}
use homeassistant_2gig_gc.Tools.Sse.Counts.{stream-IsCounted}
use homeassistant_2gig_gc.Tools.Sse.Windows.{hold-chunks}
use homeassistant_2gig_gc.Tools.Sse.Silence.{heard, longest, hold-longest}
use homeassistant_2gig_gc.Tools.Sse.Connecting.{IsRefused, IsAccepted, stream-connects}
use homeassistant_2gig_gc.Tools.Sse.Advising.{says_push, some_failed, stream-push}

abbrev blank_line : Bytes
blank_line = 10 ∷ 10 ∷ []

-- Two frames, and the start of a third.
abbrev frames_sent : Bytes
frames_sent = codes "data: a" ++ blank_line ++ codes "id: 2" ++ blank_line ++ codes "da"

two_frames_drained :
    drain blank_line frames_sent ≡ (codes "data: a" ∷ codes "id: 2" ∷ [], codes "da")
unfolding drain
two_frames_drained = refl

-- A window of ten seconds.
abbrev window : Window
window = record { blank_framed = true; deadline = 10000 }

abbrev pub id_decode : Bytes → Text
id_decode bytes = bytes

-- All at once, and byte by byte at the blank line.
abbrev at_once : List Turn
at_once =
    record { before = 0; outcome = arrived (codes "data: a" ++ 10 ∷ 10 ∷ []) 100 }
    ∷ record { before = 200; outcome = silent 10000 }
    ∷ []

abbrev pub in_pieces : List Turn
in_pieces =
    record { before = 0; outcome = arrived (codes "dat") 300 }
    ∷ record { before = 400; outcome = arrived (codes "a: a" ++ 10 ∷ []) 4500 }
    ∷ record { before = 4600; outcome = arrived (10 ∷ []) 5000 }
    ∷ record { before = 5000; outcome = silent 10000 }
    ∷ []

abbrev start : StreamResult
start = new_result (codes "S1")

abbrev Unbroken : List Turn → Type 0
Unbroken turns = (read_loop id_decode window turns (opening id_decode window 0 start)).1 ≡ none

at_once-Unbroken : Unbroken at_once
unfolding read_loop
at_once-Unbroken = refl

in_pieces-Unbroken : Unbroken in_pieces
unfolding read_loop
in_pieces-Unbroken = refl

hold-chunks_example :
    content_of (hold id_decode window 0 at_once 10000 start)
    ≡ content_of (hold id_decode window 0 in_pieces 10001 start)
hold-chunks_example =
    hold-chunks id_decode window start at_once in_pieces 0 10000 0 10001 at_once-Unbroken
      in_pieces-Unbroken refl

hold-longest_example :
    (hold id_decode window 0 in_pieces 10000 start).max_gap
    ≡ longest 0 (heard id_decode window in_pieces) 10000
hold-longest_example = hold-longest id_decode window 0 10000 in_pieces start in_pieces-Unbroken refl

-- The tail counts: five seconds from the last chunk to the end.
tail_counted : (hold id_decode window 0 in_pieces 10000 start).max_gap ≡ 5000
unfolding hold drain record_frames strip
tail_counted = refl

-- A frame that is complete in the first chunk is the preamble; one that a later chunk completes is an
-- event.
whole_greeting : (hold id_decode window 0 at_once 10000 start).events ≡ 0
unfolding hold drain record_frames strip
whole_greeting = refl

cut_greeting : (hold id_decode window 0 in_pieces 10000 start).events ≡ 1
unfolding hold drain record_frames strip
cut_greeting = refl

-- The panel refuses the first subscription, and accepts the retry.
abbrev pub answer_at : ℕ → List Turn → Answer
answer_at status turns = record {
  status = status;
  headers = (codes "Content-Type", codes "text/event-stream") ∷ [];
  body = codes "Too many listeners";
  cut = none;
  started = 0;
  checked = 10;
  resumed = 510;
  opened_at = 520;
  turns = turns;
  closing = 9000;
}

abbrev attempts : ℕ → Attempt
attempts ℕ.zero = answered (answer_at 200 in_pieces)
attempts (ℕ.suc n) = answered (answer_at 503 [])

abbrev retried : StreamResult
retried = stream id_decode (codes "auto") (codes "S1") attempts 500 1 10000

retried_events : retried.events ≡ 1
unfolding stream hold drain contains text_eq record_frames strip
retried_events = refl

stream-IsCounted_example : IsCounted retried
stream-IsCounted_example =
    stream-IsCounted id_decode (codes "auto") (codes "S1") attempts 500 1 10000

abbrev pub polls : List Poll
polls =
    record { before = 0; status = some 200 }
    ∷ record { before = 5000; status = some 200 }
    ∷ record { before = 10000; status = none }
    ∷ []

retried_pushes : says_push (verdict retried (poll_status 10000 polls)) ≡ true
unfolding verdict poll_status stream hold drain contains text_eq record_frames strip
retried_pushes = refl

stream-push_example :
    (retried.connected ≡ true) × (1 < retried.chunks) × (some_failed 10000 polls ≡ false)
stream-push_example =
    stream-push id_decode (codes "auto") (codes "S1") attempts 500 1 10000 10000 polls
      retried_pushes

-- The refusal of the first attempt, and the acceptance of the second.
first-IsRefused : (n : ℕ) → 0 < n → n ≤ 1 → IsRefused 500 1000 (attempts n)
first-IsRefused ℕ.zero low high = absurd (omega (arith, low))
first-IsRefused (ℕ.suc n) low high = record {
  answer = answer_at 503 [];
  answers = refl;
  refuses = refl;
  whole = refl;
  tested = omega arith;
  back = omega arith;
}

last-IsAccepted : IsAccepted (attempts 0)
last-IsAccepted = record { answer = answer_at 200 in_pieces; answers = refl; accepts = refl }

stream-connects_example : retried.connected ≡ true
stream-connects_example =
    stream-connects id_decode (codes "auto") (codes "S1") attempts 500 1000 0 1 10000 (omega arith)
      first-IsRefused last-IsAccepted (omega arith)
