-- ===== src/Tools/Experiments/Guard.antt =====
-- The scripts write to the panel at most once, and not at all unless the baseline was healthy.
use mathlib.Core.Option
use homeassistant_2gig_gc.Prelude.{
  ℕ, ◌+◌, ◌≤◌, ◌≡◌, Bool, true, false, ◌&&◌, none, some, List, [], ◌∷◌, ◌++◌, Text, codes, Dict,
  arith, if◌then◌else◌,
}
use homeassistant_2gig_gc.Python.Effects.{Result, ok, raised, Exec, continue, ◌>>=◌, lift}
use homeassistant_2gig_gc.Python.Json.{Json}
use homeassistant_2gig_gc.Tools.Http.{
  HttpEnv, HttpRequest, HttpReply, Method, get_method, post_method, is_ok, json_of, send,
}
use homeassistant_2gig_gc.Tools.Experiments.{
  Settings, request_to, g, post_pair, baseline, abort_unless, same_pairing, reassertion, pairexp,
  pairnew, Identity, new_identity, shown_pair, mask, both_ok,
}

abbrev is_post : Method → Bool
is_post get_method = false
is_post post_method = true

-- How many of the requests write.
abbrev pub writes : List HttpRequest → ℕ
writes [] = 0
writes (r ∷ rs) = let rest = writes rs in if is_post r.method then rest + 1 else rest

writes-append :
    (xs : List HttpRequest) (r : HttpRequest)
    → writes (xs ++ r ∷ []) ≡ writes xs + (if is_post r.method then 1 else 0)
writes-append [] r = ground arith
writes-append (x ∷ xs) r = ground (arith, writes-append xs r)

-- An action that writes at most so often.
abbrev Writes : {A : Type 0} → ℕ → Exec (List HttpRequest) A → Type 0
Writes n m = (sent : List HttpRequest) → writes (m sent).1 ≤ writes sent + n

module _ {A B : Type 0} where
  continue-writes :
      (n : ℕ) (r : Result A) (f : A → Exec (List HttpRequest) B) (sent : List HttpRequest)
      → ((a : A) → Writes n (f a))
      → writes (continue r f sent).1 ≤ writes sent + n
  continue-writes n (ok a) f sent h = h a sent
  continue-writes n (raised e) f sent h = omega arith

  bind-Writes :
      (j k : ℕ) (m : Exec (List HttpRequest) A) (f : A → Exec (List HttpRequest) B)
      → Writes j m
      → ((a : A) → Writes k (f a))
      → Writes (j + k) (m >>= f)
  bind-Writes j k m f h hs sent =
      omega (arith, h sent, continue-writes k (m sent).0 f (m sent).1 hs)

lift-Writes : {A : Type 0} (r : Result A) → Writes 0 (lift r)
lift-Writes r sent = omega arith

g-Writes : (env : HttpEnv) (s : Settings) (path : Text) → Writes 0 (g env s path)
unfolding g send
g-Writes env s path sent = omega (arith, writes-append sent (request_to s get_method path none))

post_pair-Writes :
    (env : HttpEnv) (s : Settings) (body : Dict Text Json) → Writes 1 (post_pair env s body)
unfolding post_pair send
post_pair-Writes env s body sent =
    omega (arith, writes-append sent (request_to s post_method (codes "/api/v1/pair") (some body)))

baseline-Writes : (env : HttpEnv) (s : Settings) → Writes 0 (baseline env s)
unfolding baseline
baseline-Writes env s =
    bind-Writes 0 0 (g env s (codes "/api/v1/status")) _ (g-Writes env s (codes "/api/v1/status"))
      λ st.
        bind-Writes 0 0 (g env s (codes "/api/v1/pair")) _ (g-Writes env s (codes "/api/v1/pair"))
          λ pr sent. omega arith

-- Behind a test that aborts, as much as is allowed if the test holds.
abbrev pub allowed : Bool → ℕ
allowed healthy = if healthy then 1 else 0

abort-Writes :
    {A : Type 0} (env : HttpEnv) (s : Settings) (b : Bool)
    (f : Unit {0} → Exec (List HttpRequest) A)
    → Writes 1 (f tt)
    → Writes (allowed b) (abort_unless env s b >>= f)
abort-Writes env s true f h = h
abort-Writes env s false f h = λ sent. omega arith

-- Both requests of the baseline were answered below 400.
abbrev pub is_healthy : Result (HttpReply × HttpReply) → Bool
is_healthy (ok (st, pr)) = is_ok st && is_ok pr
is_healthy (raised e) = false

behind_baseline :
    {A : Type 0} (r : Result (HttpReply × HttpReply))
    (f : HttpReply × HttpReply → Exec (List HttpRequest) A) (sent : List HttpRequest)
    → ((p : HttpReply × HttpReply) → Writes (allowed (is_ok p.0 && is_ok p.1)) (f p))
    → writes (continue r f sent).1 ≤ writes sent + allowed (is_healthy r)
behind_baseline (ok (st, pr)) f sent h = h (st, pr) sent
behind_baseline (raised e) f sent h = omega arith

module _ (env : HttpEnv) (s : Settings) (sent : List HttpRequest) where
  -- `pairexp.py` writes to the panel at most once, and not at all unless both requests of its baseline
  -- succeeded.
  pub pairexp-writes :
      writes (pairexp env s sent).1 ≤ writes sent + allowed (is_healthy (baseline env s sent).0)
  unfolding pairexp
  pairexp-writes =
      let fact : writes (pairexp env s sent).1
          ≤ writes (baseline env s sent).1 + allowed (is_healthy (baseline env s sent).0) =
        behind_baseline (baseline env s sent).0 _ (baseline env s sent).1 λ before.
          abort-Writes env s (is_ok before.0 && is_ok before.1) _ (λ sent.
            continue-writes 1 (json_of before.1) _ sent λ v sent.
              continue-writes 1 (same_pairing v) _ sent λ body.
                bind-Writes 1 0 (post_pair env s body) _ (post_pair-Writes env s body) λ posted.
                  bind-Writes 0 0 (baseline env s) _ (baseline-Writes env s)
                    λ after. lift-Writes (reassertion v after)) in
      omega (arith, baseline-Writes env s sent, fact)

  -- `pairnew.py` writes to the panel at most once, and not at all unless both requests of its baseline
  -- succeeded.
  pub pairnew-writes :
      writes (pairnew env s sent).1 ≤ writes sent + allowed (is_healthy (baseline env s sent).0)
  unfolding pairnew
  pairnew-writes =
      let fact : writes (pairnew env s sent).1
          ≤ writes (baseline env s sent).1 + allowed (is_healthy (baseline env s sent).0) =
        behind_baseline (baseline env s sent).0 _ (baseline env s sent).1 λ before sent.
          continue-writes (allowed (is_ok before.0 && is_ok before.1)) (shown_pair env s before.1) _
            sent
            λ shown. abort-Writes env s (is_ok before.0 && is_ok before.1) _ (
              bind-Writes 1 0 (post_pair env s (new_identity env s)) _
                (post_pair-Writes env s (new_identity env s))
                λ posted. bind-Writes 0 0 (baseline env s) _ (baseline-Writes env s) λ after sent.
                  continue-writes 0 (shown_pair env s after.1) _ sent λ shown_after.
                    lift-Writes {A = Identity} (
                      ok (record {
                        shown = Option.map mask posted.json;
                        written = posted.json;
                        survived = both_ok env s after;
                      }))) in
      omega (arith, baseline-Writes env s sent, fact)
