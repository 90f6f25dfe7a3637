-- ===== src/Tools/Sse/Advising.antt =====
-- When the probe speaks for a push transport.
use homeassistant_2gig_gc.Prelude.{
  ℕ, ◌<◌, ◌≡◌, refl, sym, ◌∙◌, Bool, true, false, not, ◌&&◌, ◌||◌, List, [], ◌∷◌, Text, leb, nat_eq,
  arith, any,
}
use homeassistant_2gig_gc.Tools.Sse.{
  Bytes, StreamResult, Attempt, stream, Advice, push_possible, verdict, Poll, poll_status, is_ok,
}
use homeassistant_2gig_gc.Tools.Sse.Counts.{stream-IsCounted}

abbrev pub is_push : Advice → Bool
is_push push_possible = true
is_push a = false

-- Push is on the table.
abbrev pub says_push : List Advice → Bool
says_push = any is_push

verdict-push :
    (primary : StreamResult) (good bad : ℕ)
    → says_push (verdict primary (good, bad))
      ≡ (primary.connected && nat_eq bad 0 && not (nat_eq primary.events 0))
unfolding verdict
verdict-push primary good bad = ground arith

-- Whether a poll before the deadline failed.
abbrev pub some_failed : ℕ → List Poll → Bool
some_failed deadline [] = false
some_failed deadline (p ∷ polls) =
    not (leb deadline p.before) && (not (is_ok p.status) || some_failed deadline polls)

poll_status-failed :
    (deadline : ℕ) (polls : List Poll)
    → nat_eq (poll_status deadline polls).1 0 ≡ not (some_failed deadline polls)
unfolding poll_status
poll_status-failed deadline [] = refl
poll_status-failed deadline (p ∷ polls) = ground (arith, poll_status-failed deadline polls)

-- The probe speaks for a push transport only where the subscriber was accepted, more than one chunk
-- came, and every poll of the panel beside the stream succeeded.
pub stream-push :
    (decode : Bytes → Text) (framing label : Text) (attempts : ℕ → Attempt)
    (retry_after retries seconds deadline : ℕ) (polls : List Poll)
    → let primary = stream decode framing label attempts retry_after retries seconds in
      says_push (verdict primary (poll_status deadline polls)) ≡ true
      → (primary.connected ≡ true) × (1 < primary.chunks) × (some_failed deadline polls ≡ false)
stream-push decode framing label attempts retry_after retries seconds deadline polls h =
    let primary = stream decode framing label attempts retry_after retries seconds in
    let p = poll_status deadline polls in
    let told = sym (verdict-push primary p.0 p.1) ∙ h in
    let counts = stream-IsCounted decode framing label attempts retry_after retries seconds in
    (
      ground (arith, told),
      grind (arith, told, counts.quiet),
      ground (arith, told, poll_status-failed deadline polls),
    )
