-- ===== src/Pygc3/Client/Exchange.antt =====
-- One request and its outcome (pygc3/src/pygc3/client.py): `_request` and `_safe_message`.
use homeassistant_2gig_gc.Prelude.{
  ℕ, take, Option, some, [], ◌∷◌, ◌++◌, Text, codes, Dict, decimal, nat_eq, leb, if◌then◌else◌,
}
use homeassistant_2gig_gc.Python.Effects.{
  Result, ok, raised, Exec, gc3, Gc3Error, connection_error, auth_error, response_error,
}
use homeassistant_2gig_gc.Python.Json.{Json, obj, or_value, get_field, str_of}
use homeassistant_2gig_gc.Pygc3.Client.Transport.{
  Request, timed_out, client_fault, content_type_fault, value_fault, Read, got, failed, Response,
  Reply, no_response, response, Env,
}
use homeassistant_2gig_gc.Pygc3.Client.Session.{Gc3Client, World, ensure_session, headers}

-- How the body of the outer `try` of `_request` ends: by a value, by an exception of pygc3, or by a
-- `TimeoutError` or `aiohttp.ClientError` with its text, which the outer handler converts.
pub data Attempt (A : Type 0) : Type 0 where
  returned : A → Attempt A
  raises : Gc3Error → Attempt A
  broke : Text → Attempt A

abbrev then_raise : Attempt Text → (Text → Gc3Error) → Attempt Json
then_raise (returned m) f = raises (f m)
then_raise (raises e) f = raises e
then_raise (broke m) f = broke m

-- `(await resp.text())[:200]`, or nothing
abbrev text_or_empty : Read Text → Text
text_or_empty (got t) = take 200 t
text_or_empty (failed e) = []

abbrev message_of : (Json → Text) → Json → Text
message_of repr (obj fs) = str_of repr (or_value (get_field fs (codes "message")) (obj fs))
message_of repr v = str_of repr v

-- `_safe_message`
unfoldable pub safe_message : (Json → Text) → Response → Attempt Text
safe_message repr resp = elim resp.json [
  | got payload ↦ returned (message_of repr payload)
  | failed (timed_out m) ↦ broke m
  | failed other ↦ returned (text_or_empty resp.text)
]

abbrev or_text : Text → Text → Text
or_text [] d = d
or_text (c ∷ s) d = c ∷ s

abbrev not_json : Text → Text → ℕ → Gc3Error
not_json method path status =
    response_error (method ++ codes " " ++ path ++ codes ": response was not JSON") (some status)

abbrev read_json : Text → Text → Response → Attempt Json
read_json method path resp = elim resp.json [
  | got payload ↦ returned payload
  | failed (timed_out m) ↦ broke m
  | failed (client_fault m) ↦ broke m
  | failed (content_type_fault m) ↦ raises (not_json method path resp.status)
  | failed (value_fault m) ↦ raises (not_json method path resp.status)
]

-- The body of the `async with` in `_request`.
unfoldable pub handle_response : (Json → Text) → Text → Text → Response → Attempt Json
unfolding safe_message
handle_response repr method path resp =
    if nat_eq resp.status 403
    then then_raise (safe_message repr resp) (λ m. auth_error (or_text m (codes "Invalid API key")))
    else if leb 400 resp.status
    then then_raise (safe_message repr resp) (λ m.
      response_error
        (method ++ codes " " ++ path ++ codes " -> HTTP " ++ decimal resp.status ++ codes ": " ++ m)
        (some resp.status))
    else read_json method path resp

-- The handler of the outer `try` of `_request`.
abbrev pub conclude : Text → Text → Attempt Json → Result Json
conclude method path (returned v) = ok v
conclude method path (raises e) = raised (gc3 e)
conclude method path (broke m) =
    raised (gc3 (connection_error (method ++ codes " " ++ path ++ codes ": " ++ m)))

-- The `try` of `_request`, on what came back for the request.
unfoldable pub settle : (Json → Text) → Text → Text → Reply → Result Json
unfolding handle_response
settle repr method path (no_response m) = conclude method path (broke m)
settle repr method path (response resp) =
    conclude method path (handle_response repr method path resp)

-- The arguments that `_request` passes to `session.request`.
unfoldable pub request_of :
    Gc3Client → Text → Text → Option (Dict Text Json) → Option (Dict Text Json) → Request
unfolding headers
request_of c method path body params = record {
  method = method;
  url = c.base ++ path;
  json = body;
  params = params;
  headers = headers c;
  ssl = c.ssl;
  timeout = c.timeout;
}

module _ (env : Env) where
  -- `_request`
  unfoldable pub request :
      Text → Text → Option (Dict Text Json) → Option (Dict Text Json) → Exec World Json
  unfolding ensure_session request_of settle
  request method path body params w =
      let w' = ensure_session w in
      let r = request_of w'.client method path body params in
      (settle env.repr method path (env.panel w'.sent r), record w' { sent = w'.sent ++ r ∷ [] })
