-- ===== src/Tools/Http.antt =====
-- What the tools exchange with `requests`. Neither the library nor the panel is modelled: the panel is
-- any function of the requests that it was sent before.
use homeassistant_2gig_gc.Prelude.{
  reverse, nat_eq, if◌then◌else◌, ℕ, Bool, not, Option, none, some, List, [], ◌∷◌, ◌++◌, Text,
  codes, Dict, leb,
}
use homeassistant_2gig_gc.Python.Effects.{Result, ok, raised, Exec, request_failed, value_error}
use homeassistant_2gig_gc.Python.Json.{Json}

-- `url.rstrip("/")`
abbrev drop_slashes : Text → Text
drop_slashes [] = []
drop_slashes (c ∷ s) = let rest = drop_slashes s in if nat_eq c b'/' then rest else c ∷ s

abbrev pub rstrip_slash : Text → Text
rstrip_slash url = reverse (drop_slashes (reverse url))

pub data Method : Type 0 where
  get_method post_method : Method

pub record HttpRequest : Type 0 where
  pub method : Method
  pub url : Text
  pub headers : Dict Text Text
  pub json : Option (Dict Text Json)

-- An answer; no JSON where `r.json()` raises `ValueError`.
pub record HttpReply : Type 0 where
  pub status : ℕ
  pub json : Option Json
  pub text : Text

-- `repr` is Python's printed form of a float, a list or a dict; the panel gives an answer, or
-- `requests` raises, with a text.
pub record HttpEnv : Type 0 where
  pub repr : Json → Text
  pub panel : List HttpRequest → HttpRequest → Option HttpReply

-- `r.ok`
abbrev pub is_ok : HttpReply → Bool
is_ok r = not (leb 400 r.status)

-- `r.json()`
abbrev pub json_of : HttpReply → Result Json
json_of r = elim r.json [ none ↦ raised value_error | some v ↦ ok v ]

abbrev pub reply_of : Option HttpReply → Result HttpReply
reply_of none = raised (request_failed (codes "request failed"))
reply_of (some r) = ok r

-- One request, on the requests sent so far.
unfoldable pub send : HttpEnv → HttpRequest → Exec (List HttpRequest) HttpReply
send env r sent = (reply_of (env.panel sent r), sent ++ r ∷ [])
