-- ===== src/Witnesses/Races.antt =====
-- The program around the event-stream probe at concrete panels.
use homeassistant_2gig_gc.Prelude.{
  map, get, pos, ◌==◌, text_Eq, if◌then◌else◌, ◌≡◌, refl, true, false, none, some, [], ◌∷◌, codes,
  strip, contains, text_eq, merge, put,
}
use homeassistant_2gig_gc.Tools.Sse.{drain, hold, answered, stream, record_frames, headers_for}
use homeassistant_2gig_gc.Tools.Sse.Program.{
  Args, Outside, code_of, default_path, run_variants, talkers, main_async, subscription, missing,
}
use homeassistant_2gig_gc.Witnesses.Streams.{id_decode, answer_at, in_pieces, polls}

abbrev probe_args : Args
probe_args = record {
  panel = some (codes "https://panel:3000/");
  api_key = some (codes "k");
  pairing_key = some (codes "p");
  path = default_path;
  seconds = 10000;
  retry_after = 500;
  partition = pos 0;
  second_subscriber = false;
  variants = true;
  framing = codes "auto";
}

-- A panel that speaks to those who subscribe to everything.
abbrev some_outside : Outside
some_outside = record {
  decode = id_decode;
  ask = λ sent r. some (200, []);
  subscriber = λ label s n.
      if label == codes "subscribeall"
      then answered (answer_at 200 in_pieces)
      else answered (answer_at 404 []);
  polls = polls;
  poll_deadline = 10000;
}

one_talker :
    map (λ r. r.label) (talkers some_outside probe_args (run_variants some_outside probe_args))
    ≡ codes "subscribeall" ∷ []
unfolding run_variants stream text_eq hold drain contains record_frames strip
one_talker = refl

-- The panel is healthy, and the probe ends with 0 after what it was asked for.
run_code : code_of (main_async some_outside probe_args).0 ≡ 0
unfolding main_async
run_code = refl

-- An override of the header that a variant asks for.
accept_any :
    get
      (subscription probe_args default_path none
        (some ((codes "Accept", codes "*/*") ∷ []))).headers
      (codes "Accept")
    ≡ some (codes "*/*")
unfolding subscription get merge put headers_for text_eq
accept_any = refl

nothing_missing : missing probe_args ≡ []
unfolding missing
nothing_missing = refl
