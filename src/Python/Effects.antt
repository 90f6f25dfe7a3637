-- ===== src/Python/Effects.antt =====
-- Exceptions as values (pygc3/src/pygc3/exceptions.py for the hierarchy of `GC3Error`), and methods
-- that change an object: what was written before a raise stays written, so the state comes back
-- beside the exception too.
use homeassistant_2gig_gc.Prelude.{ℕ, Option, Text, List, [], ◌∷◌, ◌≡◌, refl, ◌⊎◌, inl, inr}

-- The subclasses of `GC3Error`, with their messages; the last carries the HTTP status, if any.
pub data Gc3Error : Type 0 where
  connection_error : Text → Gc3Error
  auth_error : Text → Gc3Error
  response_error : Text → Option ℕ → Gc3Error

-- `str(err)`
abbrev pub message : Gc3Error → Text
message (connection_error m) = m
message (auth_error m) = m
message (response_error m status) = m

-- Every exception that the modelled code raises: those of pygc3, the built-in ones, `struct.error`, the
-- ones by which the integration tells Home Assistant what went wrong, and `requests`' own.
pub data Error : Type 0 where
  gc3 : Gc3Error → Error
  attribute_error value_error type_error overflow_error key_error struct_error : Error
  config_entry_auth_failed : Text → Error
  update_failed : Text → Error
  command_failed : Text → Error
  request_failed : Text → Error
  system_exit : ℕ → Error
  no_disarm_pin : Error

pub data Result {ℓ} (A : Type ℓ) : Type ℓ where
  ok : A → Result A
  raised : Error → Result A

abbrev pub bind {ℓ κ} : {A : Type ℓ} {B : Type κ} → Result A → (A → Result B) → Result B
bind (ok a) f = f a
bind (raised e) f = raised e

-- `[f(x) for x in xs]`, where `f` may raise.
unfoldable pub map_result {ℓ κ} :
    {A : Type ℓ} {B : Type κ} → (A → Result B) → List A → Result (List B)
map_result f [] = ok []
map_result f (x ∷ xs) = bind (f x) (λ y. bind (map_result f xs) (λ ys. ok (y ∷ ys)))

abbrev pub Exec {ℓ} : Type ℓ → Type ℓ → Type ℓ
Exec S A = S → Result A × S

module _ {ℓ} {S A : Type ℓ} where
  abbrev pub pure : A → Exec S A
  pure a s = (ok a, s)

  abbrev pub raise : Error → Exec S A
  raise e s = (raised e, s)

  abbrev pub lift : Result A → Exec S A
  lift r s = (r, s)

  abbrev pub gets : (S → A) → Exec S A
  gets f s = (ok (f s), s)

module _ {ℓ} {S A B : Type ℓ} where
  abbrev pub continue : Result A → (A → Exec S B) → Exec S B
  continue (ok a) f s = f a s
  continue (raised e) f s = (raised e, s)

  infixl 5 ◌>>=◌ ◌>>◌
  abbrev pub ◌>>=◌ : Exec S A → (A → Exec S B) → Exec S B
  ◌>>=◌ m f s = let (r, s') = m s in continue r f s'

  abbrev pub ◌>>◌ : Exec S A → Exec S B → Exec S B
  m >> k = m >>= λ _. k

pub Result-cases {ℓ} :
    {A : Type ℓ} (r : Result A) → ((a : A) × (r ≡ ok a)) ⊎ ((e : Error) × (r ≡ raised e))
Result-cases (ok a) = inl (a, refl)
Result-cases (raised e) = inr (e, refl)

-- A predicate of the value, where a result has one.
abbrev pub Ensures {ℓ κ} : {A : Type ℓ} → (A → Type κ) → Result A → Type κ
Ensures P (ok a) = P a
Ensures P (raised e) = Unit

pub Ensures-self {ℓ} : {A : Type ℓ} (r : Result A) → Ensures (λ a. r ≡ ok a) r
Ensures-self (ok a) = refl
Ensures-self (raised e) = tt

pub Ensures-bind {ℓ κ μ ν} :
    {A : Type ℓ} {B : Type κ} (P : A → Type μ) (Q : B → Type ν) (r : Result A) (f : A → Result B)
    → Ensures P r
    → ((a : A) → P a → Ensures Q (f a))
    → Ensures Q (bind r f)
Ensures-bind P Q (ok a) f h k = k a h
Ensures-bind P Q (raised e) f h k = tt

pub Ensures-continue {ℓ μ ν} :
    {S A B : Type ℓ} (P : A → Type μ) (Q : B → Type ν) (r : Result A) (f : A → Exec S B) (s : S)
    → Ensures P r
    → ((a : A) → P a → Ensures Q (f a s).0)
    → Ensures Q (continue r f s).0
Ensures-continue P Q (ok a) f s h k = k a h
Ensures-continue P Q (raised e) f s h k = tt

pub Ensures-always {ℓ} : {A : Type ℓ} (r : Result A) → Ensures (λ a. Unit {0}) r
Ensures-always (ok a) = tt
Ensures-always (raised e) = tt

pub Ensures-map {ℓ κ μ} :
    {A : Type ℓ} {P : A → Type κ} {Q : A → Type μ} (f : (a : A) → P a → Q a) (r : Result A)
    → Ensures P r
    → Ensures Q r
Ensures-map f (ok a) h = f a h
Ensures-map f (raised e) h = tt

pub Ensures-at {ℓ κ} :
    {A : Type ℓ} (P : A → Type κ) (r : Result A) (a : A) → r ≡ ok a → Ensures P r → P a
Ensures-at P r a e h = let h' : Ensures P (ok a) = rw e at h in h'

-- Where nothing has to be known of the first value.
pub Ensures-then {ℓ ν} :
    {S A B : Type ℓ} (Q : B → Type ν) (r : Result A) (f : A → Exec S B) (s : S)
    → ((a : A) → Ensures Q (f a s).0)
    → Ensures Q (continue r f s).0
Ensures-then Q (ok a) f s k = k a
Ensures-then Q (raised e) f s k = tt

pub ok-injective {ℓ} : {A : Type ℓ} {a b : A} → ok a ≡ ok b → a ≡ b
ok-injective e = cc

-- A step that changes no state leaves it as it is behind any result.
pub continue-keeps {ℓ} :
    {S A B : Type ℓ} (r : Result A) (f : A → Exec S B) (s : S)
    → ((a : A) → (f a s).1 ≡ s)
    → (continue r f s).1 ≡ s
continue-keeps (ok a) f s h = h a
continue-keeps (raised e) f s h = refl
