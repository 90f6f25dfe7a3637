-- ===== src/Tools/Experiments.antt =====
-- tools/pairexp.py and tools/pairnew.py: two scripts that pair again with credentials at hand. What they
-- print is modelled as far as it is computed; the file that the second writes is a field of its report.
pub mod Guard
use mathlib.Core.Option
use homeassistant_2gig_gc.Prelude.{
  ℕ, ◌-◌, Bool, true, false, not, ◌&&◌, Option, none, some, List, [], ◌∷◌, ◌++◌, Text, codes, Dict,
  length, take, drop, leb, decimal, or_default, if◌then◌else◌,
}
use homeassistant_2gig_gc.Python.Effects.{
  Result, ok, raised, bind, Exec, lift, raise, ◌>>=◌, system_exit,
}
use homeassistant_2gig_gc.Python.Json.{Json, bool, str, obj, Fields, end, field}
use homeassistant_2gig_gc.Pygc3.Models.{get_key}
use homeassistant_2gig_gc.Tools.Http.{
  HttpEnv, HttpRequest, HttpReply, Method, get_method, post_method, is_ok, json_of, send,
}

-- The environment variables; `base` is without slashes at its end.
pub record Settings : Type 0 where
  pub base : Text
  pub api_key : Text
  pub pairing_key : Text
  pub new_name : Text

abbrev pub auth_headers : Settings → Dict Text Text
auth_headers s =
    (codes "X-Api-Key", s.api_key)
    ∷ (codes "X-Pairing-Key", s.pairing_key)
    ∷ (codes "Content-Type", codes "application/json")
    ∷ []

abbrev pub request_to : Settings → Method → Text → Option (Dict Text Json) → HttpRequest
request_to s method path body = record {
  method = method;
  url = s.base ++ path;
  headers = auth_headers s;
  json = body;
}

-- One value of the first two characters, the last two and the length: `<12…34 (6 chars)>`.
abbrev pub masked_text : Text → Text
masked_text v =
    codes "<"
    ++ take 2 v
    ++ codes "…"
    ++ drop (length v - 2) v
    ++ codes " ("
    ++ decimal (length v)
    ++ codes " chars)>"

-- `mask`
unfoldable mutual
  pub mask : Json → Json
  mask (obj fs) = obj (mask_fields fs)
  mask (str v) = if leb 6 (length v) then str (masked_text v) else str v
  mask v = v

  pub mask_fields : Fields → Fields
  mask_fields end = end
  mask_fields (field k v fs) = field k (mask v) (mask_fields fs)

-- What `pairexp.py` reports: whether the old credentials still work, and then the pairing key and the
-- device name after the write and before it.
pub record Reassertion : Type 0 where
  pub survived : Bool
  pub pairing_keys : Option (Json × Json)
  pub device_names : Option (Json × Json)

-- What `pairnew.py` reports: the masked answer, the full answer that goes to the file, and whether the
-- old credentials still work.
pub record Identity : Type 0 where
  pub shown : Option Json
  pub written : Option Json
  pub survived : Bool

-- The body that `pairexp.py` sends back.
unfoldable pub same_pairing : Json → Result (Dict Text Json)
same_pairing base_pair = bind (get_key base_pair (codes "deviceName")) λ name.
    bind (get_key base_pair (codes "allPartitionAccess")) λ access.
      bind (get_key base_pair (codes "isSecurityDevice")) λ security.
        bind (get_key base_pair (codes "memberOfPartition")) λ member.
          bind (get_key base_pair (codes "PairingKey")) λ key. ok (
            (codes "deviceName", name)
            ∷ (codes "allPartitionAccess", access)
            ∷ (codes "isSecurityDevice", security)
            ∷ (codes "memberOfPartition", member)
            ∷ (codes "PairingKey", key)
            ∷ [])

-- The value of one key after the write and before it.
unfoldable pub compared : Text → Json → Json → Result (Json × Json)
compared k after before = bind (get_key after k) (λ a. bind (get_key before k) (λ b. ok (a, b)))

-- The verdict of `pairexp.py`, where the pairing can still be read.
unfoldable pub compared_report : Bool → Json → HttpReply → Result Reassertion
unfolding compared
compared_report survived base_pair pr = bind (json_of pr) λ after.
    bind (compared (codes "PairingKey") after base_pair) λ keys.
      bind (compared (codes "deviceName") after base_pair) λ names.
        ok (record { survived = survived; pairing_keys = some keys; device_names = some names })

-- The verdict of `pairexp.py`.
unfoldable pub reassertion : Json → HttpReply × HttpReply → Result Reassertion
unfolding compared_report
reassertion base_pair (st, pr) =
    if is_ok pr
    then compared_report (is_ok st) base_pair pr
    else ok (record { survived = false; pairing_keys = none; device_names = none })

module _ (env : HttpEnv) (s : Settings) where
  -- `g`
  unfoldable pub g : Text → Exec (List HttpRequest) HttpReply
  g path = send env (request_to s get_method path none)

  unfoldable pub post_pair : Dict Text Json → Exec (List HttpRequest) HttpReply
  post_pair body = send env (request_to s post_method (codes "/api/v1/pair") (some body))

  -- The baseline of both scripts, up to the test that aborts.
  unfoldable pub baseline : Exec (List HttpRequest) (HttpReply × HttpReply)
  unfolding g
  baseline = do
    st ← g (codes "/api/v1/status")
    pr ← g (codes "/api/v1/pair")
    λ sent. (ok (st, pr), sent)

  abbrev pub abort_unless : Bool → Exec (List HttpRequest) (Unit {0})
  abort_unless true sent = (ok tt, sent)
  abort_unless false sent = (raised (system_exit 2), sent)

  abbrev pub both_ok : HttpReply × HttpReply → Bool
  both_ok (st, pr) = is_ok st && is_ok pr

  -- `pairexp.py`
  unfoldable pub pairexp : Exec (List HttpRequest) Reassertion
  pairexp = do
    before ← baseline
    healthy ← abort_unless (both_ok before)
    base_pair ← lift (json_of before.1)
    body ← lift (same_pairing base_pair)
    posted ← post_pair body
    after ← baseline
    lift (reassertion base_pair after)

  -- `mask(r.json()) if r.ok else r.text`, which raises where an accepted answer is no JSON
  abbrev pub shown_pair : HttpReply → Result Json
  shown_pair r = if is_ok r then bind (json_of r) (λ v. ok (mask v)) else ok (str r.text)

  abbrev pub new_identity : Dict Text Json
  new_identity =
      (codes "deviceName", str s.new_name)
      ∷ (codes "allPartitionAccess", bool true)
      ∷ (codes "isSecurityDevice", bool false)
      ∷ (codes "memberOfPartition", str (codes "1"))
      ∷ []

  -- `pairnew.py`
  unfoldable pub pairnew : Exec (List HttpRequest) Identity
  unfolding mask
  pairnew = do
    before ← baseline
    shown ← lift (shown_pair before.1)
    healthy ← abort_unless (both_ok before)
    r ← post_pair new_identity
    after ← baseline
    shown_after ← lift (shown_pair after.1)
    lift
        (ok (record { shown = Option.map mask r.json; written = r.json; survived = both_ok after }))
