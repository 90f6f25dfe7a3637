-- ===== src/Tools/Sse/Program.antt =====
-- tools/sse_probe.py: `probe_endpoint`, the race of variants and `main_async`. Program/Subscriptions has
-- the arguments, their test in `main`, and what a subscriber asks for. What the panel answers is an
-- argument.
mod Subscriptions
unfoldable pub use Subscriptions.*
use mathlib.Core.Option
use homeassistant_2gig_gc.Prelude.{
  ℕ, ◌-◌, ◌/◌, Bool, true, false, not, Option, none, some, List, [], ◌∷◌, ◌++◌, map, Text, codes,
  text_Eq, ℤ, int_text, is_nonzero, Dict, merge, or_default, filter, is_empty, nat_eq, take,
  if◌then◌else◌,
}
use homeassistant_2gig_gc.Tools.Http.{rstrip_slash}
use homeassistant_2gig_gc.Tools.Sse.{
  Bytes, StreamResult, Attempt, stream, headers_for, Shape, endpoint_shape, Poll, poll_status,
  is_ok, Advice, verdict,
}

-- A request of the probe that is no subscription.
pub record ProbeRequest : Type 0 where
  pub verb : Text
  pub url : Text
  pub headers : Dict Text Text

-- What is outside: the answer to a request behind others, as its status and body, if there is one; what
-- the attempts of a subscriber meet; and the polls beside the stream, with their deadline.
pub record Outside : Type 0 where
  pub decode : Bytes → Text
  pub ask : List ProbeRequest → ProbeRequest → Option (ℕ × Text)
  pub subscriber : Text → Subscription → ℕ → Attempt
  pub polls : List Poll
  pub poll_deadline : ℕ

abbrev pub status_in : Option (ℕ × Text) → Option ℕ
status_in none = none
status_in (some (status, body)) = some status

module _ (o : Outside) (args : Args) where
  abbrev pub baseline_request : ProbeRequest
  baseline_request = record {
    verb = codes "GET";
    url = base_of args ++ codes "/api/v1/status";
    headers = credentials args;
  }

  abbrev pub options_request : ProbeRequest
  options_request = record {
    verb = codes "OPTIONS";
    url = base_of args ++ args.path;
    headers = credentials args;
  }

  -- The request without credentials.
  abbrev pub bare_request : ProbeRequest
  bare_request = record {
    verb = codes "GET";
    url = base_of args ++ args.path;
    headers = (codes "Accept", codes "text/event-stream") ∷ [];
  }

  -- `probe_endpoint`, on the requests sent before: what it says of the endpoint, if its request without
  -- credentials was answered. What it logs of the others steers nothing.
  unfoldable pub probe_endpoint : List ProbeRequest → Option Shape
  probe_endpoint sent =
      Option.map (λ (a : ℕ × Text). endpoint_shape a.0 (take 200 a.1))
        (o.ask (sent ++ options_request ∷ []) bare_request)

  -- `stream`
  unfoldable pub subscribe :
      Text → Text → Option (Dict Text Text) → Option (Dict Text Text) → ℕ → ℕ → StreamResult
  unfolding subscription
  subscribe label path params extra retries seconds =
      stream o.decode args.framing label (o.subscriber label (subscription args path params extra))
        args.retry_after retries seconds

  -- `run_variants`: the results
  unfoldable pub run_variants : List StreamResult
  unfolding all_variants subscribe
  run_variants = map (λ v. subscribe v.label v.path v.params v.extra 0 args.seconds) all_variants

  abbrev pub talkers : List StreamResult → List StreamResult
  talkers = filter (λ r. not (nat_eq r.events 0))

  -- The second subscriber, which joins after a third of the window.
  abbrev pub second_result : Option StreamResult
  second_result =
      if args.second_subscriber
      then some (subscribe (codes "sub2") args.path none none 0 (args.seconds - args.seconds / 3))
      else none

-- How `main_async` ends: behind an unhealthy baseline; after the race of variants, with its results; or
-- after the window, with the subscribers and the polls.
pub data Ending : Type 0 where
  unhealthy : Ending
  raced : List StreamResult → Ending
  held : StreamResult → Option StreamResult → ℕ × ℕ → Ending

-- The exit code.
abbrev pub code_of : Ending → ℕ
code_of unhealthy = 2
code_of (raced results) = 0
code_of (held primary second polls) = if primary.connected then 0 else 1

-- What is said at the end.
abbrev pub advice_of : Ending → List Advice
advice_of (held primary second polls) = verdict primary polls
advice_of _ = []

-- What `verdict` says of the second subscriber: whether it was accepted, and whether the first was then
-- dropped.
abbrev pub second_outcome : StreamResult → Option StreamResult → Option (Bool × Bool)
second_outcome primary none = none
second_outcome primary (some second) = some (second.connected, primary.closed_by_server)

module _ (o : Outside) (args : Args) where
  abbrev pub held_ending : Ending
  held_ending =
      held (subscribe o args (codes "sub1") args.path none none 1 args.seconds)
        (second_result o args) (poll_status o.poll_deadline o.polls)

  abbrev pub behind_baseline : Bool → Ending × Option Shape
  behind_baseline false = (unhealthy, none)
  behind_baseline true = (
    if args.variants then raced (run_variants o args) else held_ending,
    probe_endpoint o args (baseline_request o args ∷ []),
  )

  -- `main_async`: how it ends, and what it says of the endpoint, if it came to that
  unfoldable pub main_async : Ending × Option Shape
  unfolding run_variants probe_endpoint
  main_async = behind_baseline (is_ok (status_in (o.ask [] (baseline_request o args))))
