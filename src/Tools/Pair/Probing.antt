-- ===== src/Tools/Pair/Probing.antt =====
-- What the pairing helper sends, and when it reports a key.
use homeassistant_2gig_gc.Prelude.{
  ℕ, ◌≡◌, refl, ap, ◌∙◌, inl, inr, true, false, Option, none, some, List, [], ◌∷◌, ◌++◌, Text,
  codes, text_Eq, get, put, text_eq, ==_refl, if-cases, contains, arith, Bool-cases,
}
use homeassistant_2gig_gc.Python.Effects.{
  ok, bind, Ensures, Ensures-bind, Ensures-self, Ensures-map, Ensures-always, continue-keeps,
  ok-injective,
}
use homeassistant_2gig_gc.Python.Json.{Json, Fields, obj, get_field, truthy}
use homeassistant_2gig_gc.Tools.Http.{HttpEnv, HttpRequest, HttpReply, is_ok, reply_of, send}
use homeassistant_2gig_gc.Tools.Pair.{
  Args, probe, enrol, pair_request, session_headers, interpret, issued_key, first_key, key_fields,
  is_key_in, Enrolment, key_found, refused, found_key, accepted_end, enrol_end, has_field, item_at,
}

pub put_given-api_key :
    (pairing_key : Option Text) → get (session_headers none pairing_key) (codes "X-Api-Key") ≡ none
unfolding session_headers get put text_eq
put_given-api_key none = refl
put_given-api_key (some value) = ground arith

-- `probe` sends exactly one request, and no API key with it, whatever key it was started with.
pub probe_unauthenticated :
    (env : HttpEnv) (args : Args) (sent : List HttpRequest)
    → (r : HttpRequest) × ((probe env args sent).1 ≡ sent ++ r ∷ [])
      × (get r.headers (codes "X-Api-Key") ≡ none)
unfolding probe send
probe_unauthenticated env args sent =
    let r = pair_request env args none in
    let sent' = sent ++ r ∷ [] in
    (
      r,
      continue-keeps (reply_of (env.panel sent r)) _ sent'
          (λ reply. continue-keeps (interpret env.repr reply) _ sent' (λ said. refl)),
      put_given-api_key args.pairing_key,
    )

-- Where a key was found: in an object, under one of the names.
abbrev IsIssued : List Text → Json → Option Json → Type 0
IsIssued ks v none = Unit
IsIssued ks v (some key) =
    (fs : Fields) × (k : Text) × (v ≡ obj fs)
    × (contains ks k ≡ true)
    × (has_field fs k ≡ true)
    × (get_field fs k ≡ key)

IsIssued-cons :
    (k : Text) (ks : List Text) (v : Json) (o : Option Json)
    → IsIssued ks v o
    → IsIssued (k ∷ ks) v o
unfolding contains
IsIssued-cons k ks v none h = tt
IsIssued-cons k ks v (some key) (fs, j, e, listed, present, value) =
    (fs, j, e, ground (arith, listed), present, value)

item_at-IsIssued :
    (k : Text) (ks : List Text) (v : Json)
    → is_key_in k v ≡ ok true
    → Ensures (IsIssued (k ∷ ks) v) (bind (item_at k v) (λ w. ok (some w)))
unfolding is_key_in item_at contains
item_at-IsIssued k ks (obj fs) h = (fs, k, refl, ground (arith, ==_refl k), ok-injective h, refl)
item_at-IsIssued k ks _ h = tt

first_key-IsIssued : (ks : List Text) (v : Json) → Ensures (IsIssued ks v) (first_key ks v)
unfolding first_key
first_key-IsIssued [] v = tt
first_key-IsIssued (k ∷ ks) v =
    Ensures-bind (λ b. is_key_in k v ≡ ok b) (IsIssued (k ∷ ks) v) (is_key_in k v) _
      (Ensures-self (is_key_in k v))
      λ b e.
        if-cases (Ensures (IsIssued (k ∷ ks) v)) b _ _
          (λ here. item_at-IsIssued k ks v (e ∙ ap ok here))
          (λ later. Ensures-map (IsIssued-cons k ks v) (first_key ks v) (first_key-IsIssued ks v))

-- What `enrol` says by the key that it reports, and by its exit code, of the answer it had.
abbrev pub EndsBy : HttpReply → Enrolment × ℕ → Type 0
EndsBy r (key_found key, code) =
    (code ≡ 0)
    × (is_ok r ≡ true)
    × (fs : Fields) × (k : Text) × (r.json ≡ some (obj fs))
    × (contains key_fields k ≡ true)
    × (get_field fs k ≡ key)
    × (truthy key ≡ true)
EndsBy r (refused said, code) = (code ≡ 1) × (is_ok r ≡ false)
EndsBy r (_, code) = (code ≡ 0) × (is_ok r ≡ true)

found_key-EndsBy :
    (r : HttpReply) (v : Json) (o : Option Json)
    → is_ok r ≡ true
    → r.json ≡ some v
    → IsIssued key_fields v o
    → EndsBy r (found_key o, 0)
found_key-EndsBy r v none good e h = (refl, good)
found_key-EndsBy r v (some key) good e (fs, k, whole, listed, present, value) =
    elim (Bool-cases (truthy key)) [
      | inl filled ↦ rw filled (refl, good, fs, k, e ∙ ap some whole, listed, value, filled)
      | inr empty ↦ rw empty (refl, good)
    ]

accepted_end-EndsBy :
    (env : HttpEnv) (r : HttpReply) (o : Option Json)
    → is_ok r ≡ true
    → r.json ≡ o
    → Ensures (EndsBy r) (accepted_end env o)
unfolding issued_key
accepted_end-EndsBy env r none good e = (refl, good)
accepted_end-EndsBy env r (some v) good e =
    Ensures-bind (IsIssued key_fields v) (EndsBy r) (first_key key_fields v) _
      (first_key-IsIssued key_fields v) (λ o h. found_key-EndsBy r v o good e h)

enrol_end-EndsBy : (env : HttpEnv) (r : HttpReply) → Ensures (EndsBy r) (enrol_end env r)
enrol_end-EndsBy env r =
    if-cases (Ensures (EndsBy r)) (is_ok r) _ _ (λ good. accepted_end-EndsBy env r r.json good refl)
      (λ bad.
        Ensures-bind (λ said. Unit {0}) (EndsBy r) (interpret env.repr r) _
          (Ensures-always (interpret env.repr r)) (λ said u. (refl, bad)))

-- How `enrol` ends, where it raises nothing: a key that it reports stands in an object with which the
-- panel accepted the request, under one of the known names and not empty; the exit code is 1 exactly
-- where the panel refused.
pub enrol-EndsBy :
    (env : HttpEnv) (args : Args) (sent : List HttpRequest) (reply : HttpReply)
    → env.panel sent (pair_request env args args.api_key) ≡ some reply
    → Ensures (EndsBy reply) (enrol env args sent).0
unfolding enrol send
enrol-EndsBy env args sent reply answered = rw answered (enrol_end-EndsBy env reply)
