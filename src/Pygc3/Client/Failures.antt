-- ===== src/Pygc3/Client/Failures.antt =====
-- How a request to the panel can fail.
use homeassistant_2gig_gc.Prelude.{
  ◌≡◌, refl, Bool, true, false, ◌&&◌, Option, none, some, Text, Dict, nat_eq, leb, arith,
  if◌then◌else◌,
}
use homeassistant_2gig_gc.Python.Effects.{Result, ok, raised, gc3, auth_error}
use homeassistant_2gig_gc.Python.Json.{Json}
use homeassistant_2gig_gc.Pygc3.Client.{
  Env, Reply, no_response, response, Read, got, failed, timed_out, World, Attempt, returned, raises,
  broke, conclude, handle_response, settle, request, request_of, ensure_session,
}

-- The reply that the panel gives to one request of the client.
abbrev pub reply_to :
    Env → Text → Text → Option (Dict Text Json) → Option (Dict Text Json) → World → Reply
reply_to env method path body params w =
    env.panel (ensure_session w).sent (request_of (ensure_session w).client method path body params)

-- A result that is no exception, or one of those of pygc3.
abbrev pub IsGc3 {ℓ} : {A : Type ℓ} → Result A → Type 0
IsGc3 (ok a) = Unit
IsGc3 (raised (gc3 e)) = Unit
IsGc3 (raised e) = ⊥

conclude-IsGc3 : (method path : Text) (a : Attempt Json) → IsGc3 (conclude method path a)
conclude-IsGc3 method path (returned v) = tt
conclude-IsGc3 method path (raises e) = tt
conclude-IsGc3 method path (broke m) = tt

settle-IsGc3 :
    (repr : Json → Text) (method path : Text) (reply : Reply)
    → IsGc3 (settle repr method path reply)
unfolding settle
settle-IsGc3 repr method path (no_response m) = tt
settle-IsGc3 repr method path (response resp) =
    conclude-IsGc3 method path (handle_response repr method path resp)

-- Whatever the panel answers, `_request` returns a value or raises an exception of pygc3: no fault of
-- aiohttp gets past it.
pub request-IsGc3 :
    (env : Env) (method path : Text) (body params : Option (Dict Text Json)) (w : World)
    → IsGc3 (request env method path body params w).0
unfolding request
request-IsGc3 env method path body params w =
    settle-IsGc3 env.repr method path (reply_to env method path body params w)

abbrev pub is_auth_error {ℓ} : {A : Type ℓ} → Result A → Bool
is_auth_error (raised (gc3 (auth_error m))) = true
is_auth_error r = false

-- The body came, or failed for another reason than time.
abbrev pub arrived : {A : Type 0} → Read A → Bool
arrived (failed (timed_out m)) = false
arrived r = true

-- The panel answered 403, and its message did not time out.
abbrev pub is_refusal : Reply → Bool
is_refusal (no_response m) = false
is_refusal (response resp) = nat_eq resp.status 403 && arrived resp.json

settle-refusal :
    (repr : Json → Text) (method path : Text) (reply : Reply)
    → is_auth_error (settle repr method path reply) ≡ is_refusal reply
unfolding settle
settle-refusal repr method path (no_response m) = refl
settle-refusal repr method path (response resp) = ground arith

-- `_request` raises `GC3AuthError` exactly when the panel answered 403 and the read of its message
-- did not time out.
pub request-refusal :
    (env : Env) (method path : Text) (body params : Option (Dict Text Json)) (w : World)
    → is_auth_error (request env method path body params w).0
      ≡ is_refusal (reply_to env method path body params w)
unfolding request
request-refusal env method path body params w =
    settle-refusal env.repr method path (reply_to env method path body params w)

-- The value of a 2xx or 3xx answer, if its body is JSON.
abbrev pub payload_of : Reply → Option Json
payload_of (no_response m) = none
payload_of (response resp) = elim resp.json [
  | got v ↦ (if leb 400 resp.status then none else some v)
  | failed e ↦ none
]

abbrev pub value_of {ℓ} : {A : Type ℓ} → Result A → Option A
value_of (ok a) = some a
value_of (raised e) = none

settle-payload :
    (repr : Json → Text) (method path : Text) (reply : Reply)
    → value_of (settle repr method path reply) ≡ payload_of reply
unfolding settle
settle-payload repr method path (no_response m) = refl
settle-payload repr method path (response resp) = ground arith

-- `_request` returns a value exactly when the panel answered with a status below 400 and a body that
-- is JSON, and then that JSON.
pub request-payload :
    (env : Env) (method path : Text) (body params : Option (Dict Text Json)) (w : World)
    → value_of (request env method path body params w).0
      ≡ payload_of (reply_to env method path body params w)
unfolding request
request-payload env method path body params w =
    settle-payload env.repr method path (reply_to env method path body params w)
