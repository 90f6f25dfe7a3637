-- ===== src/Gc3/Setup.antt =====
-- custom_components/gc3/__init__.py: setting up, unloading and reloading a config entry. The calls made of
-- Home Assistant are a list; `first_refresh` is what its base class makes of the first poll.
pub mod Ready
use homeassistant_2gig_gc.Prelude.{
  ℕ, Bool, true, false, Option, none, some, List, [], ◌∷◌, ◌++◌, Text, codes, text_Eq, Dict, get,
}
use homeassistant_2gig_gc.Python.Effects.{Result, ok, raised, bind, Exec, key_error}
use homeassistant_2gig_gc.Python.Json.{Json, bool}
use homeassistant_2gig_gc.Pygc3.Client.{Env, Gc3Client, World, new_client, default_timeout}
use homeassistant_2gig_gc.Gc3.Const.{
  ConfigEntry, get_default, conf_host, conf_port, conf_api_key, conf_pairing_key, conf_partition,
  conf_poll_interval, default_port, default_partition, default_poll_interval,
}
use homeassistant_2gig_gc.Gc3.Coordinator.{Coordinator, Gc3Data, new_coordinator, update_data}

infixl 5 ◌>>=◌
abbrev ◌>>=◌ {ℓ κ} : {A : Type ℓ} {B : Type κ} → Result A → (A → Result B) → Result B
◌>>=◌ = bind

-- `d[key]`
unfoldable pub item : Dict Text Json → Text → Result Json
item d key = elim (get d key) [ none ↦ raised key_error | some v ↦ ok v ]

-- `GC3Client(data[CONF_HOST], …, session=async_get_clientsession(…))`: the session is Home
-- Assistant's shared one.
unfoldable pub client_of : (Json → Text) → ℕ → Dict Text Json → Result Gc3Client
unfolding item
client_of repr shared stored = do
  host ← item stored conf_host
  pairing_key ← item stored conf_pairing_key
  api_key ← item stored conf_api_key
  ok (
      new_client repr host pairing_key api_key (get_default stored conf_port default_port)
        (some shared) (get_default stored conf_partition default_partition) default_timeout
        (bool false))

-- `async_setup_entry`, up to the first refresh.
unfoldable pub setup_coordinator : (Json → Text) → ℕ → ConfigEntry → World → Result Coordinator
unfolding client_of
setup_coordinator repr shared entry w = do
  client ← client_of repr shared entry.stored
  ok (
      new_coordinator entry (record w { client = client })
        (get_default entry.options conf_poll_interval default_poll_interval))

-- `PLATFORMS`
abbrev pub platforms : List Text
platforms = codes "alarm_control_panel" ∷ codes "binary_sensor" ∷ codes "sensor" ∷ []

-- What is asked of Home Assistant: to set up the platforms, to call `_async_reload` on new options
-- until the entry is unloaded, to unload the platforms, and to reload an entry.
pub data HassCall : Type 0 where
  forward_setups : List Text → HassCall
  listen_for_options : HassCall
  unload_platforms : List Text → HassCall
  reload : Text → HassCall

-- `entry.runtime_data`, and the calls so far.
pub record Runtime : Type 0 where
  pub coordinator : Option Coordinator
  pub calls : List HassCall

-- `first_refresh` maps the first `_async_update_data` to what `async_config_entry_first_refresh` does.
abbrev pub FirstRefresh : Type 0
FirstRefresh = Result Gc3Data × Coordinator → Result (Unit {0}) × Coordinator

abbrev pub finish_setup : Result (Unit {0}) × Coordinator → Exec Runtime Bool
finish_setup (ok u, c) r = (
  ok true,
  record {
    coordinator = some c;
    calls = r.calls ++ forward_setups platforms ∷ listen_for_options ∷ [];
  },
)
finish_setup (raised e, c) r = (raised e, r)

abbrev pub refresh_and_finish : Env → FirstRefresh → Result Coordinator → Exec Runtime Bool
refresh_and_finish env first_refresh (ok c) r = finish_setup (first_refresh (update_data env c)) r
refresh_and_finish env first_refresh (raised e) r = (raised e, r)

-- `async_setup_entry`
unfoldable pub async_setup_entry : Env → FirstRefresh → ℕ → ConfigEntry → World → Exec Runtime Bool
unfolding setup_coordinator
async_setup_entry env first_refresh shared entry w =
    refresh_and_finish env first_refresh (setup_coordinator env.repr shared entry w)

-- `async_unload_entry`; `unloaded` is what Home Assistant answers.
unfoldable pub async_unload_entry : Bool → Exec Runtime Bool
async_unload_entry unloaded r =
    (ok unloaded, record r { calls = r.calls ++ unload_platforms platforms ∷ [] })

-- `_async_reload`
unfoldable pub async_reload : ConfigEntry → Exec Runtime (Unit {0})
async_reload entry r = (ok tt, record r { calls = r.calls ++ reload entry.entry_id ∷ [] })
