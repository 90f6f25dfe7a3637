-- ===== src/Tools/Sse/Verdict.antt =====
-- tools/sse_probe.py: `headers_for`, the polls beside the stream, and what the probe concludes. Of the
-- printed report only its conclusions are modelled.
use homeassistant_2gig_gc.Prelude.{
  ℕ, suc, Bool, true, false, not, Option, none, some, List, [], ◌∷◌, ◌++◌, Text, codes, text_Eq,
  Dict, put, is_empty, is_in, nat_eq, leb, if◌then◌else◌,
}
use homeassistant_2gig_gc.Tools.Sse.Frames.{StreamResult}

abbrev or_empty : Option Text → Text
or_empty none = []
or_empty (some t) = t

abbrev pub put_if : Text → Text → Dict Text Text → Dict Text Text
put_if key value h = if is_empty value then h else put h key value

-- `headers_for`
unfoldable pub headers_for : Option Text → Text → Dict Text Text
headers_for api_key pairing_key = put_if (codes "X-Api-Key") (or_empty api_key) (
    put_if (codes "X-Pairing-Key") pairing_key (
      (codes "Accept", codes "text/event-stream") ∷ (codes "Cache-Control", codes "no-cache") ∷ []))

-- What an unauthenticated request says of the endpoint.
pub data Shape : Type 0 where
  not_implemented refuses unexpected : Shape

-- The verdict of `probe_endpoint`, on the status and the first 200 characters of the body.
unfoldable pub endpoint_shape : ℕ → Text → Shape
endpoint_shape status body =
    if is_in (codes "Endpoint Not Found") body
    then not_implemented
    else if nat_eq status 403
    then refuses
    else unexpected

-- One poll of `/status`: the time at the loop's test, and the status, or nothing after an error.
pub record Poll : Type 0 where
  pub before : ℕ
  pub status : Option ℕ

-- `r.ok`
abbrev pub is_ok : Option ℕ → Bool
is_ok none = false
is_ok (some status) = not (leb 400 status)

abbrev pub count_poll : Bool → ℕ × ℕ → ℕ × ℕ
count_poll true (good, bad) = (suc good, bad)
count_poll false (good, bad) = (good, suc bad)

-- `poll_status`: how many polls before the deadline succeeded, and how many failed.
unfoldable pub poll_status : ℕ → List Poll → ℕ × ℕ
poll_status deadline [] = (0, 0)
poll_status deadline (p ∷ polls) =
    let rest = poll_status deadline polls in
    if leb deadline p.before then (0, 0) else count_poll (is_ok p.status) rest

-- What `verdict` says of the primary subscriber.
pub data Advice : Type 0 where
  not_usable greets_only not_a_byte starves push_possible : Advice

abbrev pub on_silence : StreamResult → List Advice
on_silence primary =
    if nat_eq primary.events 0
    then if nat_eq primary.bytes_read 0 then not_a_byte ∷ [] else greets_only ∷ []
    else []

abbrev pub on_polls : StreamResult → ℕ → List Advice
on_polls primary bad =
    if nat_eq bad 0
    then if nat_eq primary.events 0 then [] else push_possible ∷ []
    else starves ∷ []

-- `verdict`
unfoldable pub verdict : StreamResult → ℕ × ℕ → List Advice
verdict primary (good, bad) =
    if primary.connected then on_silence primary ++ on_polls primary bad else not_usable ∷ []
