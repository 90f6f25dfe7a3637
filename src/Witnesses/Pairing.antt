-- ===== src/Witnesses/Pairing.antt =====
-- The pairing tools at concrete panels.
use homeassistant_2gig_gc.Prelude.{
  ◌+◌, ◌≤◌, ◌≡◌, refl, none, some, [], ◌∷◌, ◌++◌, codes, pos, text_Eq, is_in, lower, text_eq,
  decimal,
}
use homeassistant_2gig_gc.Python.Effects.{ok, Ensures}
use homeassistant_2gig_gc.Python.Json.{str, arr, obj, cons, nil, end, field, str_of, get_field}
use homeassistant_2gig_gc.Tools.Http.{HttpEnv, HttpRequest, HttpReply, send}
use homeassistant_2gig_gc.Tools.Pair.{
  Args, probe, enrol, pair_request, key_found, gate_one, interpret, issued_key, show,
}
use homeassistant_2gig_gc.Tools.Http.{rstrip_slash}
use homeassistant_2gig_gc.Tools.Pair.Commands.{
  Command, show_command, args_of, main, MaySend, main_sends,
}
use homeassistant_2gig_gc.Tools.Pair.Probing.{EndsBy, enrol-EndsBy}
use homeassistant_2gig_gc.Tools.Experiments.{Settings, baseline, pairexp, pairnew, mask, post_pair}
use homeassistant_2gig_gc.Pygc3.Models.{get_key}
use homeassistant_2gig_gc.Tools.Experiments.Guard.{writes, is_healthy, allowed, pairexp-writes}

-- A panel that accepts every request with one answer.
abbrev accepting : HttpReply → HttpEnv
accepting r = record { repr = λ v. []; panel = λ sent r'. some r }

abbrev issuing : HttpReply
issuing = record {
  status = 200;
  json = some (obj (field (codes "api_key") (str (codes "k-1")) end));
  text = [];
}

abbrev refusing : HttpReply
refusing = record {
  status = 401;
  json = some (obj (field (codes "Error") (str (codes "Invalid API Key")) end));
  text = [];
}

abbrev args : Args
args = record {
  panel = codes "https://panel//";
  api_key = some (codes "secret");
  pairing_key = some (codes "pk");
  device_name = codes "Home Assistant";
  partition = pos 1;
}

probe_refused : (probe (accepting refusing) args []).0 ≡ ok (gate_one, 1)
unfolding probe send interpret get_key is_in lower str_of get_field text_eq
probe_refused = refl

enrol-EndsBy_example : Ensures (EndsBy issuing) (enrol (accepting issuing) args []).0
enrol-EndsBy_example = enrol-EndsBy (accepting issuing) args [] issuing refl

enrolled : (enrol (accepting issuing) args []).0 ≡ ok (key_found (str (codes "k-1")), 0)
unfolding enrol send issued_key text_eq get_field
enrolled = refl

-- The slashes at the end of the panel's address are cut.
pair_request_url :
    (pair_request (accepting issuing) args none).url ≡ codes "https://panel/api/v1/pair"
pair_request_url = refl

abbrev settings : Settings
settings = record {
  base = codes "https://panel";
  api_key = codes "secret";
  pairing_key = codes "pk";
  new_name = codes "Home Assistant";
}

pairexp-writes_example :
    writes (pairexp (accepting issuing) settings []).1
    ≤ writes [] + allowed (is_healthy (baseline (accepting issuing) settings []).0)
pairexp-writes_example = pairexp-writes (accepting issuing) settings []

-- One write behind a healthy baseline, and none behind a refusal.
one_write : writes (pairnew (accepting issuing) settings []).1 ≡ 1
unfolding pairnew baseline send post_pair
one_write = refl

no_write : writes (pairnew (accepting refusing) settings []).1 ≡ 0
unfolding pairnew baseline send
no_write = refl

-- A key in an object is masked, a key in a list is shown.
mask_object :
    mask (obj (field (codes "key") (str (codes "abcdefgh")) end))
    ≡ obj (field (codes "key") (str (codes "<ab…gh (8 chars)>")) end)
unfolding mask decimal
mask_object = refl

mask_list : mask (arr (cons (str (codes "abcdefgh")) nil)) ≡ arr (cons (str (codes "abcdefgh")) nil)
unfolding mask
mask_list = refl

abbrev show_it : Command
show_it = show_command (codes "https://panel/") (codes "pk") (some (codes "secret"))

main_sends_example :
    (r : HttpRequest) × ((main (accepting refusing) show_it []).1 ≡ [] ++ r ∷ [])
    × (r.url ≡ rstrip_slash (args_of show_it).panel ++ codes "/api/v1/pair")
    × MaySend (accepting refusing) show_it r
main_sends_example = main_sends (accepting refusing) show_it []

shown_code : (main (accepting refusing) show_it []).0 ≡ ok 1
unfolding main show send
shown_code = refl
