-- ===== src/Pygc3/Client/Transport.antt =====
-- What the client exchanges with aiohttp: requests, and what comes back for one. Neither aiohttp
-- nor the panel is modelled: the panel is any function of the requests that it was sent before, so
-- a statement about every `Env` holds for every behaviour of both.
use homeassistant_2gig_gc.Prelude.{ℕ, Bool, Text, List, Option, Dict}
use homeassistant_2gig_gc.Python.Json.{Json}

-- The arguments of `session.request`.
pub record Request : Type 0 where
  pub method : Text
  pub url : Text
  pub json : Option (Dict Text Json)
  pub params : Option (Dict Text Json)
  pub headers : Dict Text Json
  pub ssl : Bool
  pub timeout : Json

-- Why a body could not be read: `TimeoutError`, `aiohttp.ClientError`, its subclass
-- `ContentTypeError`, and `ValueError`, each with its text.
pub data ReadFault : Type 0 where
  timed_out client_fault content_type_fault value_fault : Text → ReadFault

pub data Read (A : Type 0) : Type 0 where
  got : A → Read A
  failed : ReadFault → Read A

-- An answer, with what `resp.json(content_type=None)` and `resp.text()` yield.
pub record Response : Type 0 where
  pub status : ℕ
  pub json : Read Json
  pub text : Read Text

-- `no_response` is a `TimeoutError` or an `aiohttp.ClientError` of the request itself.
pub data Reply : Type 0 where
  no_response : Text → Reply
  response : Response → Reply

-- `repr` is Python's printed form of a float, a list or a dict.
pub record Env : Type 0 where
  pub repr : Json → Text
  pub panel : List Request → Request → Reply
