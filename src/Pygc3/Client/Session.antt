-- ===== src/Pygc3/Client/Session.antt =====
-- The fields of the client and its lifecycle (pygc3/src/pygc3/client.py): `__init__`,
-- `_ensure_session`, `close` and `_headers`. A `World` is the client, the aiohttp sessions that are
-- open, each known by a number, and the requests sent so far.
use homeassistant_2gig_gc.Prelude.{
  ℕ, suc, Bool, true, false, Option, none, some, List, [], ◌∷◌, ◌++◌, Text, codes, nat_Eq, Dict,
  discard, pos, if◌then◌else◌,
}
use homeassistant_2gig_gc.Python.Json.{Json, int, float, str, finite, truthy, str_of}
use homeassistant_2gig_gc.Pygc3.Client.Transport.{Request}

abbrev pub default_port : Json
default_port = int (pos 3000)

-- 8.0 seconds
abbrev pub default_timeout : Json
default_timeout = float (finite false 8 (pos 0))

abbrev pub default_partition : Json
default_partition = int (pos 1)

-- The fields of `GC3Client`; a session is known by its number.
pub record Gc3Client : Type 0 where
  pub base : Text
  pub api_key : Json
  pub pairing_key : Json
  pub partition : Json
  pub timeout : Json
  pub ssl : Bool
  pub session : Option ℕ
  pub owns_session : Bool

-- `GC3Client.__init__`
unfoldable pub new_client :
    (Json → Text) → Json → Json → Json → Json → Option ℕ → Json → Json → Json → Gc3Client
new_client repr host pairing_key api_key port session partition timeout verify_ssl = record {
  base = codes "https://" ++ str_of repr host ++ codes ":" ++ str_of repr port;
  api_key = api_key;
  pairing_key = pairing_key;
  partition = partition;
  timeout = timeout;
  ssl = truthy verify_ssl;
  session = session;
  owns_session = elim session [ none ↦ true | some s ↦ false ];
}

pub record World : Type 0 where
  pub client : Gc3Client
  pub next_session : ℕ
  pub open_sessions : List ℕ
  pub sent : List Request

-- `aiohttp.ClientSession()`, stored with its ownership.
open_session : World → World
open_session w = record w {
  client = record w.client { session = some w.next_session; owns_session = true };
  next_session = suc w.next_session;
  open_sessions = w.next_session ∷ w.open_sessions;
}

-- `_ensure_session`
unfoldable pub ensure_session : World → World
unfolding open_session
ensure_session w = elim w.client.session [ none ↦ open_session w | some s ↦ w ]

-- `close`
unfoldable pub close : World → World
close w = elim w.client.session [
  | none ↦ w
  | some s ↦
      if w.client.owns_session
      then record w {
        client = record w.client { session = none };
        open_sessions = discard w.open_sessions s;
      }
      else w
]

-- `__aenter__`, `__aexit__`
abbrev pub aenter : World → World
aenter w = w

unfoldable pub aexit : World → World
unfolding close
aexit w = close w

-- `_headers`
unfoldable pub headers : Gc3Client → Dict Text Json
headers c =
    let base =
      (codes "X-Pairing-Key", c.pairing_key)
      ∷ (codes "Content-Type", str (codes "application/json"))
      ∷ [] in
    if truthy c.api_key then base ++ (codes "X-Api-Key", c.api_key) ∷ [] else base
