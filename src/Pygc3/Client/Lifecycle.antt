-- ===== src/Pygc3/Client/Lifecycle.antt =====
-- The sessions that a client opens and closes over its life.
use homeassistant_2gig_gc.Prelude.{
  ℕ, suc, ◌≡◌, refl, Bool, true, false, Option, none, some, List, [], ◌∷◌, Text, Dict, nat_Eq, ltb,
  ◌&&◌, contains, discard, arith,
}
use homeassistant_2gig_gc.Python.Json.{Json}
use homeassistant_2gig_gc.Pygc3.Client.{World, Env, request, ensure_session, close}

-- One step in the life of a client: a request, by whichever method, or a `close`.
pub data Step (env : Env) : World → World → Type 0 where
  asked :
      (w : World) (method path : Text) (body params : Option (Dict Text Json))
      → Step env w (request env method path body params w).1
  closed : (w : World) → Step env w (close w)

pub data Reach (env : Env) (w : World) : World → Type 0 where
  here : Reach env w w
  next : {u v : World} → Reach env w u → Step env u v → Reach env w v

-- The open sessions are those of others, and the client's own if it has one.
abbrev Shape : List ℕ → Option ℕ → Bool → List ℕ → Type 0
Shape others none owned opened = opened ≡ others
Shape others (some s) true opened = (opened ≡ s ∷ others) × (contains others s ≡ false)
Shape others (some s) false opened = opened ≡ others

abbrev all_below : ℕ → List ℕ → Bool
all_below n [] = true
all_below n (s ∷ ss) = ltb s n && all_below n ss

-- `others` are the sessions that this client did not open, an injected one among them.
pub record IsTidy (others : List ℕ) (w : World) : Type 0 where
  pub below : all_below w.next_session others ≡ true
  pub shape : Shape others w.client.session w.client.owns_session w.open_sessions

fresh-not-listed : (s : ℕ) (others : List ℕ) → all_below s others ≡ true → contains others s ≡ false
unfolding contains
fresh-not-listed s [] h = refl
fresh-not-listed s (t ∷ ts) h = ground (arith, fresh-not-listed s ts)

all_below-suc : (n : ℕ) (xs : List ℕ) → all_below n xs ≡ true → all_below (suc n) xs ≡ true
all_below-suc n [] h = refl
all_below-suc n (x ∷ xs) h = ground (arith, all_below-suc n xs)

discard_absent : (xs : List ℕ) (s : ℕ) → contains xs s ≡ false → discard xs s ≡ xs
unfolding contains discard
discard_absent [] s h = refl
discard_absent (x ∷ xs) s h = ground (arith, discard_absent xs s)

discard_head : (xs : List ℕ) (s : ℕ) → contains xs s ≡ false → discard (s ∷ xs) s ≡ xs
unfolding discard
discard_head xs s h = ground (arith, discard_absent xs s h)

ensure_session-IsTidy :
    (others : List ℕ) (w : World) → IsTidy others w → IsTidy others (ensure_session w)
unfolding ensure_session
ensure_session-IsTidy others w h = ground (
  arith,
  fresh-not-listed w.next_session others h.below,
  all_below-suc w.next_session others h.below,
)

request-IsTidy :
    (env : Env) (method path : Text) (body params : Option (Dict Text Json)) (others : List ℕ)
    (w : World)
    → IsTidy others w
    → IsTidy others (request env method path body params w).1
unfolding request
request-IsTidy env method path body params others w h =
    let t : IsTidy others (ensure_session w) = ensure_session-IsTidy others w h in
    record { below = t.below; shape = t.shape }

close-restores : (others : List ℕ) (w : World) → IsTidy others w → (close w).open_sessions ≡ others
unfolding close
close-restores others w h = grind (arith, discard_head)

close-IsTidy : (others : List ℕ) (w : World) → IsTidy others w → IsTidy others (close w)
unfolding close
close-IsTidy others w h = grind (arith, discard_head)

Reach-IsTidy :
    (env : Env) (others : List ℕ) {w u : World} → Reach env w u → IsTidy others w → IsTidy others u
Reach-IsTidy env others here h = h
Reach-IsTidy env others (next r (asked u method path body params)) h =
    request-IsTidy env method path body params others u (Reach-IsTidy env others r h)
Reach-IsTidy env others (next r (closed u)) h = close-IsTidy others u (Reach-IsTidy env others r h)

-- Where the open sessions are those of others and at most the client's own, with numbers given out
-- before: after any requests and closes, a last `close` leaves open exactly the sessions that the client did
-- not open: none of its own leaks, and an injected one is not closed.
pub Reach-close_restores :
    (env : Env) (others : List ℕ) {w u : World}
    → IsTidy others w
    → Reach env w u
    → (close u).open_sessions ≡ others
Reach-close_restores env others {u} h r = close-restores others u (Reach-IsTidy env others r h)
