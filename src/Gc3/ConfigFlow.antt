-- ===== src/Gc3/ConfigFlow.antt =====
-- custom_components/gc3/config_flow.py: the steps of the config flow and of the options flow. The
-- input of a step is what Home Assistant hands over, after it validated the form by its schema.
pub mod Steps
pub mod Schemas
pub mod Typing
pub mod Stored
use homeassistant_2gig_gc.Prelude.{
  ℕ, Bool, true, false, not, Option, none, some, List, [], ◌∷◌, map, Text, codes, text_Eq, ◌==◌,
  Dict, merge, lower, if◌then◌else◌,
}
use homeassistant_2gig_gc.Python.Effects.{
  Result, ok, raised, bind, Exec, lift, ◌>>=◌, Error, gc3, connection_error, auth_error,
  response_error,
}
use homeassistant_2gig_gc.Python.Json.{Json, bool}
use homeassistant_2gig_gc.Pygc3.Models.{PanelStatus, as_text}
use homeassistant_2gig_gc.Pygc3.Client
use homeassistant_2gig_gc.Pygc3.Client.{Env, World, Gc3Client}
use homeassistant_2gig_gc.Gc3.Const.{
  conf_host, get_default, conf_poll_interval, conf_no_entry_delay, conf_night_no_entry_delay,
  conf_bypass_not_ready, default_poll_interval,
}
use homeassistant_2gig_gc.Gc3.Setup.{item, client_of}

-- How a step ends: a form with its errors, a new entry with its unique id, an existing entry with new
-- data, or an abort with its reason.
pub data FlowResult : Type 0 where
  show_form : Text → Dict Text Text → FlowResult
  create_entry : Text → Text → Dict Text Json → FlowResult
  update_entry : Dict Text Json → FlowResult
  abort : Text → FlowResult

-- The `except` clauses of `_validate`: the error key, or `None`.
unfoldable pub error_key : Result PanelStatus → Result (Option Text)
error_key (ok status) = ok none
error_key (raised (gc3 (auth_error m))) = ok (some (codes "invalid_auth"))
error_key (raised (gc3 (connection_error m))) = ok (some (codes "cannot_connect"))
error_key (raised (gc3 (response_error m status))) = ok (some (codes "unknown"))
error_key (raised e) = raised e

-- A call of a method of another client in the same world.
abbrev pub with_client {ℓ} :
    {A : Type ℓ} → Gc3Client → (World → Result A × World) → World → Result A × World
with_client c m w =
    let (r, w') = m (record w { client = c }) in (r, record w' { client = w.client })

abbrev pub validate_by : Env → Result Gc3Client → World → Result (Option Text) × World
validate_by env (raised e) w = (raised e, w)
validate_by env (ok c) w = let (r, w') = with_client c (Client.status env) w in (error_key r, w')

-- `_validate`; `shared` is Home Assistant's aiohttp session.
unfoldable pub validate : Env → ℕ → Dict Text Json → Exec World (Option Text)
unfolding client_of error_key
validate env shared input w = validate_by env (client_of env.repr shared input) w

-- `user_input[CONF_HOST].lower()`
unfoldable pub unique_id_of : Dict Text Json → Result Text
unfolding item
unique_id_of input = bind (item input conf_host) (λ v. bind (as_text v) (λ t. ok (lower t)))

-- `errors["base"] = err`
abbrev pub base_error : Text → Dict Text Text
base_error err = (codes "base", err) ∷ []

abbrev pub entry_title : Text
entry_title = codes "2GIG GC3"

-- How a validated step ends.
abbrev pub conclude_step : Text → FlowResult → Option Text → FlowResult
conclude_step step done none = done
conclude_step step done (some err) = show_form step (base_error err)

abbrev pub validated : Env → ℕ → Text → Dict Text Json → FlowResult → Exec World FlowResult
validated env shared step input done = do
  err ← validate env shared input
  lift (ok (conclude_step step done err))

abbrev pub or_abort : Option Text → Exec World FlowResult → Exec World FlowResult
or_abort none rest w = rest w
or_abort (some reason) rest w = (ok (abort reason), w)

module _ (env : Env) (shared : ℕ) where
  abbrev pub user_submitted : (Text → Option Text) → Dict Text Json → Exec World FlowResult
  user_submitted claim input = do
    unique_id ← lift (unique_id_of input)
    or_abort (claim unique_id)
        (validated env shared (codes "user") input (create_entry unique_id entry_title input))

  -- `async_step_user`; `claim` is the reason for which Home Assistant aborts on a unique id, if any
  unfoldable pub async_step_user :
      (Text → Option Text) → Option (Dict Text Json) → Exec World FlowResult
  async_step_user claim none w = (ok (show_form (codes "user") []), w)
  async_step_user claim (some input) w = user_submitted claim input w

  abbrev pub reconfigure_submitted :
      (Text → Option Text) → Text → Dict Text Json → Exec World FlowResult
  reconfigure_submitted claim entry_unique_id input = do
    unique_id ← lift (unique_id_of input)
    or_abort (claim unique_id) (
        if unique_id == entry_unique_id
        then validated env shared (codes "reconfigure") input (update_entry input)
        else lift (ok (abort (codes "wrong_panel"))))

  -- `async_step_reconfigure` of the entry with that unique id; `claim` is the reason for which
  -- `async_set_unique_id` aborts, if any
  unfoldable pub async_step_reconfigure :
      (Text → Option Text) → Text → Option (Dict Text Json) → Exec World FlowResult
  async_step_reconfigure claim entry_unique_id none w = (ok (show_form (codes "reconfigure") []), w)
  async_step_reconfigure claim entry_unique_id (some input) w =
      reconfigure_submitted claim entry_unique_id input w

  -- `async_step_reauth_confirm` of an entry with that data
  unfoldable pub async_step_reauth_confirm :
      Dict Text Json → Option (Dict Text Json) → Exec World FlowResult
  async_step_reauth_confirm stored none w = (ok (show_form (codes "reauth_confirm") []), w)
  async_step_reauth_confirm stored (some input) w =
      validated env shared (codes "reauth_confirm") (merge stored input)
        (update_entry (merge stored input)) w

-- What the form of the options flow offers for an option that is not set.
abbrev pub option_default : Dict Text Json → Text × Json → Text × Json
option_default options (key, fallback) = (key, get_default options key fallback)

-- The defaults in the schema of the options form.
abbrev pub options_form : Dict Text Json → Dict Text Json
options_form options = map (option_default options) (
    (conf_poll_interval, default_poll_interval)
    ∷ (conf_no_entry_delay, bool false)
    ∷ (conf_night_no_entry_delay, bool false)
    ∷ (conf_bypass_not_ready, bool false)
    ∷ [])

-- How the options flow ends: new options, or a form with its defaults.
pub data OptionsResult : Type 0 where
  saved shown_options : Dict Text Json → OptionsResult

-- `GC3OptionsFlow.async_step_init`, on the options of the entry
unfoldable pub async_step_init : Dict Text Json → Option (Dict Text Json) → OptionsResult
async_step_init options none = shown_options (options_form options)
async_step_init options (some input) = saved input
