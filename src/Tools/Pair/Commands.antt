-- ===== src/Tools/Pair/Commands.antt =====
-- tools/pair.py: `main`, on what argparse makes of the command line.
use homeassistant_2gig_gc.Prelude.{
  ℕ, ◌≡◌, refl, ◌∙◌, Option, none, some, List, [], ◌∷◌, ◌++◌, Text, codes, text_Eq, get, ℤ, pos,
  or_default,
}
use homeassistant_2gig_gc.Python.Effects.{ok, Exec, lift, ◌>>=◌, continue-keeps}
use homeassistant_2gig_gc.Tools.Http.{
  HttpEnv, HttpRequest, HttpReply, get_method, post_method, is_ok, reply_of, send, rstrip_slash,
}
use homeassistant_2gig_gc.Tools.Pair.{
  Args, show, probe, enrol, pair_path, pair_request, session_headers, interpret, exit_of,
  Interpretation, Enrolment,
}
use homeassistant_2gig_gc.Tools.Pair.Probing.{put_given-api_key}

-- A subcommand with its options: the panel and the pairing key, the API key, the name of the device and
-- the partition, each as far as the subcommand takes it and it was given.
pub data Command : Type 0 where
  show_command : Text → Text → Option Text → Command
  probe_command : Text → Option Text → Option Text → Option ℤ → Command
  enrol_command : Text → Text → Option Text → Option Text → Option ℤ → Command

abbrev pub name_or_default : Option Text → Text
name_or_default name = or_default name (codes "Home Assistant")

abbrev pub partition_or_default : Option ℤ → ℤ
partition_or_default partition = or_default partition (pos 1)

-- The parsed arguments; `show` has no name and no partition, and `probe` no API key, and they read none.
unfoldable pub args_of : Command → Args
args_of (show_command panel pairing_key api_key) = record {
  panel = panel;
  api_key = api_key;
  pairing_key = some pairing_key;
  device_name = name_or_default none;
  partition = partition_or_default none;
}
args_of (probe_command panel pairing_key name partition) = record {
  panel = panel;
  api_key = none;
  pairing_key = pairing_key;
  device_name = name_or_default name;
  partition = partition_or_default partition;
}
args_of (enrol_command panel pairing_key api_key name partition) = record {
  panel = panel;
  api_key = api_key;
  pairing_key = some pairing_key;
  device_name = name_or_default name;
  partition = partition_or_default partition;
}

abbrev exit_code : Interpretation × ℕ → ℕ
exit_code (said, code) = code

abbrev enrolled_code : Enrolment × ℕ → ℕ
enrolled_code (end, code) = code

module _ (env : HttpEnv) where
  abbrev pub dispatch : Command → Args → Exec (List HttpRequest) ℕ
  dispatch (show_command panel pairing_key api_key) args = show env args
  dispatch (probe_command panel pairing_key name partition) args = do
    p ← probe env args
    lift (ok (exit_code p))
  dispatch (enrol_command panel pairing_key api_key name partition) args = do
    p ← enrol env args
    lift (ok (enrolled_code p))

  -- `main`: the exit code
  unfoldable pub main : Command → Exec (List HttpRequest) ℕ
  unfolding args_of
  main cmd = dispatch cmd (args_of cmd)

  -- What a subcommand may send: `show` only reads, and `probe` sends no API key.
  abbrev pub MaySend : Command → HttpRequest → Type 0
  MaySend (show_command panel pairing_key api_key) r = r.method ≡ get_method
  MaySend (probe_command panel pairing_key name partition) r =
      (r.method ≡ post_method) × (get r.headers (codes "X-Api-Key") ≡ none)
  MaySend (enrol_command panel pairing_key api_key name partition) r = r.method ≡ post_method

  -- An action that sends exactly this request.
  abbrev Sends : {A : Type 0} → HttpRequest → Exec (List HttpRequest) A → Type 0
  Sends r m = (sent : List HttpRequest) → (m sent).1 ≡ sent ++ r ∷ []

  send-Sends :
      {A : Type 0} (r : HttpRequest) (f : HttpReply → Exec (List HttpRequest) A)
      → ((reply : HttpReply) (sent : List HttpRequest) → (f reply sent).1 ≡ sent)
      → Sends r (send env r >>= f)
  unfolding send
  send-Sends r f h sent =
      continue-keeps (reply_of (env.panel sent r)) f (sent ++ r ∷ [])
        (λ reply. h reply (sent ++ r ∷ []))

  Sends-then :
      {A B : Type 0} (r : HttpRequest) (m : Exec (List HttpRequest) A) (g : A → B)
      → Sends r m
      → Sends r (m >>= λ a. lift (ok (g a)))
  Sends-then r m g h sent = continue-keeps (m sent).0 _ (m sent).1 (λ a. refl) ∙ h sent

  probe-Sends : (args : Args) → Sends (pair_request env args none) (probe env args)
  unfolding probe
  probe-Sends args =
      send-Sends (pair_request env args none) _
        λ reply sent. continue-keeps (interpret env.repr reply) _ sent (λ said. refl)

  enrol-Sends : (args : Args) → Sends (pair_request env args args.api_key) (enrol env args)
  unfolding enrol
  enrol-Sends args = send-Sends (pair_request env args args.api_key) _ (λ reply sent. refl)

  -- Every subcommand sends exactly one request, whatever the panel answers, to the pairing path of the
  -- panel it was given, less the slashes at its end: `show` only reads, and `probe` sends no API key.
  pub main_sends :
      (cmd : Command) (sent : List HttpRequest)
      → (r : HttpRequest) × ((main cmd sent).1 ≡ sent ++ r ∷ [])
        × (r.url ≡ rstrip_slash (args_of cmd).panel ++ codes "/api/v1/pair")
        × MaySend cmd r
  unfolding main show
  main_sends (show_command panel pairing_key api_key) sent =
      let r : HttpRequest = record {
        method = get_method;
        url = rstrip_slash panel ++ pair_path;
        headers = session_headers api_key (some pairing_key);
        json = none;
      } in
      (
        r,
        send-Sends r (λ reply. lift (ok (exit_of (is_ok reply)))) (λ reply sent. refl) sent,
        refl,
        refl,
      )
  main_sends (probe_command panel pairing_key name partition) sent =
      let args = args_of (probe_command panel pairing_key name partition) in
      let r = pair_request env args none in
      (
        r,
        Sends-then r (probe env args) exit_code (probe-Sends args) sent,
        refl,
        (refl, put_given-api_key pairing_key),
      )
  main_sends (enrol_command panel pairing_key api_key name partition) sent =
      let args = args_of (enrol_command panel pairing_key api_key name partition) in
      let r = pair_request env args args.api_key in
      (r, Sends-then r (enrol env args) enrolled_code (enrol-Sends args) sent, refl, refl)
