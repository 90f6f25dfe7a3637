-- ===== src/Tools/Pair.antt =====
-- tools/pair.py: the pairing helper. Of its printed output only what it concludes is modelled.
pub mod Probing
pub mod Commands
use homeassistant_2gig_gc.Prelude.{
  ℕ, Bool, true, false, not, ◌&&◌, ◌||◌, Option, none, some, List, [], ◌∷◌, ◌++◌, reverse, Text,
  codes, text_Eq, ◌==◌, Dict, put, contains, any, is_empty, is_in, lower, nat_eq, or_default,
  int_text, ℤ, if◌then◌else◌,
}
use homeassistant_2gig_gc.Python.Effects.{
  Result, ok, raised, bind, Exec, lift, ◌>>=◌, attribute_error, type_error,
}
use homeassistant_2gig_gc.Python.Json.{
  Json, null, bool, int, float, str, arr, obj, Items, nil, cons, Fields, end, field, truthy,
  or_value, str_of, get_field,
}
use homeassistant_2gig_gc.Pygc3.Models.{get_key}
use homeassistant_2gig_gc.Tools.Http.{
  HttpEnv, HttpRequest, HttpReply, get_method, post_method, is_ok, json_of, send, rstrip_slash,
}

abbrev pub pair_path : Text
pair_path = codes "/api/v1/pair"

-- `_KEY_FIELDS`
abbrev pub key_fields : List Text
key_fields =
    codes "apiKey"
    ∷ codes "ApiKey"
    ∷ codes "api_key"
    ∷ codes "apikey"
    ∷ codes "key"
    ∷ codes "token"
    ∷ []

-- A header that is set where its value is there and not empty.
abbrev pub put_given : Text → Option Text → Dict Text Text → Dict Text Text
put_given name none h = h
put_given name (some value) h = if is_empty value then h else put h name value

-- The headers that `_session` sets.
unfoldable pub session_headers : Option Text → Option Text → Dict Text Text
session_headers api_key pairing_key =
    put (put_given (codes "X-Api-Key") api_key (put_given (codes "X-Pairing-Key") pairing_key []))
      (codes "Content-Type") (codes "application/json")

-- `_enrol_body`
unfoldable pub enrol_body : Text → ℤ → Dict Text Json
enrol_body device_name partition =
    (codes "deviceName", str device_name)
    ∷ (codes "allPartitionAccess", bool true)
    ∷ (codes "isSecurityDevice", bool false)
    ∷ (codes "memberOfPartition", str (int_text partition))
    ∷ []

-- `k in fields`
abbrev pub has_field : Fields → Text → Bool
has_field end k = false
has_field (field j v fs) k = j == k || has_field fs k

abbrev is_text : Json → Text → Bool
is_text (str s) k = s == k
is_text v k = false

abbrev lists_text : Items → Text → Bool
lists_text nil k = false
lists_text (cons v vs) k = is_text v k || lists_text vs k

-- `k in data`
unfoldable pub is_key_in : Text → Json → Result Bool
is_key_in k (obj fs) = ok (has_field fs k)
is_key_in k (arr vs) = ok (lists_text vs k)
is_key_in k (str s) = ok (is_in k s)
is_key_in k v = raised type_error

-- `data[k]`, for a text `k` that is in `data`
unfoldable pub item_at : Text → Json → Result Json
item_at k (obj fs) = ok (get_field fs k)
item_at k v = raised type_error

-- The first of the keys that is in `data`.
unfoldable pub first_key : List Text → Json → Result (Option Json)
unfolding is_key_in item_at
first_key [] data_json = ok none
first_key (k ∷ ks) data_json =
    let rest = first_key ks data_json in
    bind (is_key_in k data_json)
      (λ found. if found then bind (item_at k data_json) (λ v. ok (some v)) else rest)

-- `_issued_key`
unfoldable pub issued_key : Json → Result (Option Json)
unfolding first_key
issued_key = first_key key_fields

-- What `_interpret` says of an answer.
pub data Interpretation : Type 0 where
  success no_key_field gate_two gate_one unrecognised : Interpretation

abbrev given : Option Json → Bool
given none = false
given (some v) = truthy v

-- `_interpret` on a refused request, with the text of its error.
unfoldable pub interpret_refusal : ℕ → Text → Interpretation
interpret_refusal status err =
    if nat_eq status 403 && is_in (codes "not authorized") (lower err)
    then gate_two
    else if (nat_eq status 401 || nat_eq status 403) && is_in (codes "api key") (lower err)
    then gate_one
    else unrecognised

abbrev body_or_empty : HttpReply → Json
body_or_empty r = or_default r.json (obj end)

-- `str(body.get("Error") or body.get("message") or r.text)`
unfoldable pub error_text : (Json → Text) → HttpReply → Result Text
error_text repr r = bind (get_key (body_or_empty r) (codes "Error")) λ first.
    bind (get_key (body_or_empty r) (codes "message"))
      λ second. ok (str_of repr (or_value (or_value first second) (str r.text)))

-- `_interpret`
unfoldable pub interpret : (Json → Text) → HttpReply → Result Interpretation
unfolding issued_key error_text interpret_refusal
interpret repr r =
    if is_ok r
    then bind (issued_key (body_or_empty r)) (λ k. ok (if given k then success else no_key_field))
    else bind (error_text repr r) (λ err. ok (interpret_refusal r.status err))

-- The command-line arguments.
pub record Args : Type 0 where
  pub panel : Text
  pub api_key : Option Text
  pub pairing_key : Option Text
  pub device_name : Text
  pub partition : ℤ

abbrev pub exit_of : Bool → ℕ
exit_of good = if good then 0 else 1

-- How `enrol` ends.
pub data Enrolment : Type 0 where
  refused : Interpretation → Enrolment
  not_json : Enrolment
  key_found : Json → Enrolment
  key_missing : Enrolment

abbrev pub found_key : Option Json → Enrolment
found_key none = key_missing
found_key (some v) = if truthy v then key_found v else key_missing

module _ (env : HttpEnv) where
  -- `show`: the exit code
  unfoldable pub show : Args → Exec (List HttpRequest) ℕ
  show args = do
    r ← send env (record {
      method = get_method;
      url = rstrip_slash args.panel ++ pair_path;
      headers = session_headers args.api_key args.pairing_key;
      json = none;
    })
    lift (ok (exit_of (is_ok r)))

  -- The request of `probe` and `enrol`.
  abbrev pub pair_request : Args → Option Text → HttpRequest
  pair_request args api_key = record {
    method = post_method;
    url = rstrip_slash args.panel ++ pair_path;
    headers = session_headers api_key args.pairing_key;
    json = some (enrol_body args.device_name args.partition);
  }

  -- `probe`: what it says of the answer, and the exit code
  unfoldable pub probe : Args → Exec (List HttpRequest) (Interpretation × ℕ)
  probe args = do
    r ← send env (pair_request args none)
    said ← lift (interpret env.repr r)
    lift (ok (said, exit_of (is_ok r)))

  abbrev pub accepted_end : Option Json → Result (Enrolment × ℕ)
  accepted_end none = ok (not_json, 0)
  accepted_end (some v) = bind (issued_key v) (λ k. ok (found_key k, 0))

  abbrev pub enrol_end : HttpReply → Result (Enrolment × ℕ)
  enrol_end r =
      if is_ok r
      then accepted_end r.json
      else bind (interpret env.repr r) (λ said. ok (refused said, 1))

  -- `enrol`
  unfoldable pub enrol : Args → Exec (List HttpRequest) (Enrolment × ℕ)
  enrol args = do r ← send env (pair_request args args.api_key); lift (enrol_end r)
