-- ===== src/Gc3/ConfigFlow/Typing.antt =====
-- The data that the forms give, up to the client of an entry.
use homeassistant_2gig_gc.Prelude.{
  ℕ, ◌≡◌, refl, Option, none, some, Text, codes, text_Eq, Dict, get, lower,
}
use homeassistant_2gig_gc.Python.Effects.{
  Result, ok, raised, bind, Exec, lift, gc3, auth_error, connection_error, response_error,
  attribute_error, continue,
}
use homeassistant_2gig_gc.Python.Json.{Json, obj, str}
use homeassistant_2gig_gc.Pygc3.Models.{PanelStatus, panel_status, as_text}
use homeassistant_2gig_gc.Pygc3.Client
use homeassistant_2gig_gc.Pygc3.Client.{Env, World, Gc3Client}
use homeassistant_2gig_gc.Pygc3.Client.Failures.{IsGc3, request-IsGc3}
use homeassistant_2gig_gc.Gc3.Const.{ConfigEntry, conf_host, conf_api_key, conf_pairing_key}
use homeassistant_2gig_gc.Gc3.Setup.{item, client_of, setup_coordinator}
use homeassistant_2gig_gc.Gc3.ConfigFlow.{
  FlowResult, create_entry, error_key, validate_by, validate, unique_id_of, validated, entry_title,
  or_abort, async_step_user,
}
use homeassistant_2gig_gc.Gc3.ConfigFlow.Schemas.{text, user_schema, IsOf, Fits, Conforms}

-- A result whose exception, if it has one, is `AttributeError`.
abbrev pub RaisesAttribute {ℓ} : {A : Type ℓ} → Result A → Type 0
RaisesAttribute (ok a) = Unit
RaisesAttribute (raised attribute_error) = Unit
RaisesAttribute (raised e) = ⊥

continue-RaisesAttribute {ℓ} :
    {S A B : Type ℓ} (r : Result A) (f : A → Exec S B) (s : S)
    → RaisesAttribute r
    → ((a : A) → RaisesAttribute (f a s).0)
    → RaisesAttribute (continue r f s).0
continue-RaisesAttribute (ok a) f s h k = k a
continue-RaisesAttribute (raised attribute_error) f s h k = tt
continue-RaisesAttribute (raised _) f s h k = absurd h

as_text_ok : (v : Json) → IsOf text v → (t : Text) × (as_text v ≡ ok t)
unfolding as_text
as_text_ok (str t) h = (t, refl)
as_text_ok _ h = absurd h

item_ok : (d : Dict Text Json) (k : Text) (v : Json) → get d k ≡ some v → item d k ≡ ok v
unfolding item
item_ok d k v h = rw (h, item) refl

unique_id-Fits :
    (input : Dict Text Json) → Fits user_schema input → (u : Text) × (unique_id_of input ≡ ok u)
unfolding unique_id_of
unique_id-Fits input ((host, found, typed), rest) =
    let (t, e) = as_text_ok host typed in (lower t, rw (item_ok input conf_host host found, e) refl)

-- A result that is no exception.
abbrev pub Succeeds {ℓ} : {A : Type ℓ} → Result A → Type 0
Succeeds (ok a) = Unit
Succeeds (raised e) = ⊥

bind-Succeeds :
    {A B : Type 0} (r : Result A) (f : A → B) → Succeeds r → Succeeds (bind r (λ a. ok (f a)))
bind-Succeeds (ok a) f h = tt
bind-Succeeds (raised e) f h = absurd h

client-Fits :
    (repr : Json → Text) (shared : ℕ) (stored : Dict Text Json)
    → Fits user_schema stored
    → Succeeds (client_of repr shared stored)
unfolding client_of
client-Fits repr shared stored
      ((host, host_found, h), ((api, api_found, a), ((key, key_found, k), rest))) =
    rw
      (
        item_ok stored conf_host host host_found,
        item_ok stored conf_pairing_key key key_found,
        item_ok stored conf_api_key api api_found,
      )
      tt

-- An entry whose data fit the schema of the user step gets a coordinator: no key is missing.
pub setup-Succeeds :
    (repr : Json → Text) (shared : ℕ) (entry : ConfigEntry) (w : World)
    → Fits user_schema entry.stored
    → Succeeds (setup_coordinator repr shared entry w)
unfolding setup_coordinator
setup-Succeeds repr shared entry w h =
    bind-Succeeds (client_of repr shared entry.stored) _ (client-Fits repr shared entry.stored h)

-- The exceptions that `status` raises: those of pygc3, and `AttributeError`.
abbrev FromStatus : Result PanelStatus → Type 0
FromStatus (ok s) = Unit
FromStatus (raised (gc3 e)) = Unit
FromStatus (raised attribute_error) = Unit
FromStatus (raised e) = ⊥

panel_status-FromStatus : (repr : Json → Text) (v : Json) → FromStatus (panel_status repr v)
unfolding panel_status
panel_status-FromStatus repr (obj fs) = tt
panel_status-FromStatus repr _ = tt

read-FromStatus :
    (repr : Json → Text) (r : Result Json) (w : World)
    → IsGc3 r
    → FromStatus (continue r (λ v. lift (panel_status repr v)) w).0
read-FromStatus repr (ok v) w h = panel_status-FromStatus repr v
read-FromStatus repr (raised (gc3 e)) w h = tt
read-FromStatus repr (raised _) w h = absurd h

status-FromStatus : (env : Env) (w : World) → FromStatus (Client.status env w).0
unfolding Client.status
status-FromStatus env w =
    let asked = Client.request env (codes "GET") (codes "/api/v1/status") none none w in
    read-FromStatus env.repr asked.0 asked.1
      (request-IsGc3 env (codes "GET") (codes "/api/v1/status") none none w)

error_key-RaisesAttribute : (r : Result PanelStatus) → FromStatus r → RaisesAttribute (error_key r)
unfolding error_key
error_key-RaisesAttribute (ok s) h = tt
error_key-RaisesAttribute (raised (gc3 (auth_error m))) h = tt
error_key-RaisesAttribute (raised (gc3 (connection_error m))) h = tt
error_key-RaisesAttribute (raised (gc3 (response_error m status))) h = tt
error_key-RaisesAttribute (raised attribute_error) h = tt
error_key-RaisesAttribute (raised _) h = absurd h

validate_by-RaisesAttribute :
    (env : Env) (r : Result Gc3Client) (w : World)
    → Succeeds r
    → RaisesAttribute (validate_by env r w).0
validate_by-RaisesAttribute env (raised e) w h = absurd h
validate_by-RaisesAttribute env (ok c) w h =
    error_key-RaisesAttribute _ (status-FromStatus env (record w { client = c }))

validated-RaisesAttribute :
    (env : Env) (shared : ℕ) (step : Text) (input : Dict Text Json) (done : FlowResult) (w : World)
    → Fits user_schema input
    → RaisesAttribute (validated env shared step input done w).0
unfolding validate
validated-RaisesAttribute env shared step input done w h =
    let made = client_of env.repr shared input in
    let asked = validate_by env made w in
    continue-RaisesAttribute asked.0 _ asked.1
      (validate_by-RaisesAttribute env made w (client-Fits env.repr shared input h)) (λ err. tt)

or_abort-RaisesAttribute :
    (reason : Option Text) (rest : Exec World FlowResult) (w : World)
    → RaisesAttribute (rest w).0
    → RaisesAttribute (or_abort reason rest w).0
or_abort-RaisesAttribute none rest w h = h
or_abort-RaisesAttribute (some reason) rest w h = tt

-- The user step on a form that passed its schema: whatever the panel answers, it ends in a result, or
-- raises `AttributeError`. No key is missing and no value is of a wrong type.
pub user-RaisesAttribute :
    (env : Env) (shared : ℕ) (claim : Text → Option Text) (input : Dict Text Json) (w : World)
    → Conforms user_schema input
    → RaisesAttribute (async_step_user env shared claim (some input) w).0
unfolding async_step_user
user-RaisesAttribute env shared claim input w h =
    let (u, named) = unique_id-Fits input h.fits in
    rw named (
      or_abort-RaisesAttribute (claim u)
        (validated env shared (codes "user") input (create_entry u entry_title input)) w
        (validated-RaisesAttribute env shared (codes "user") input
          (create_entry u entry_title input) w h.fits))
