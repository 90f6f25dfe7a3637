-- ===== src/Gc3/Const.antt =====
-- custom_components/gc3/const.py, and the keys of homeassistant.const that the integration uses.
use homeassistant_2gig_gc.Prelude.{ℕ, Text, codes, Dict, get, or_default, text_Eq, pos}
use homeassistant_2gig_gc.Python.Json.{Json, int}

abbrev pub conf_host : Text
conf_host = codes "host"

abbrev pub conf_port : Text
conf_port = codes "port"

abbrev pub conf_api_key : Text
conf_api_key = codes "api_key"

abbrev pub conf_pairing_key : Text
conf_pairing_key = codes "pairing_key"

abbrev pub conf_disarm_pin : Text
conf_disarm_pin = codes "disarm_pin"

abbrev pub conf_partition : Text
conf_partition = codes "partition"

abbrev pub conf_poll_interval : Text
conf_poll_interval = codes "poll_interval"

abbrev pub conf_no_entry_delay : Text
conf_no_entry_delay = codes "no_entry_delay"

abbrev pub conf_night_no_entry_delay : Text
conf_night_no_entry_delay = codes "night_no_entry_delay"

abbrev pub conf_bypass_not_ready : Text
conf_bypass_not_ready = codes "bypass_not_ready"

abbrev pub default_port : Json
default_port = int (pos 3000)

abbrev pub default_partition : Json
default_partition = int (pos 1)

abbrev pub default_poll_interval : Json
default_poll_interval = int (pos 3)

-- A config entry of Home Assistant: its id, what the config flow stored, and the options.
pub record ConfigEntry : Type 0 where
  pub entry_id : Text
  pub stored : Dict Text Json
  pub options : Dict Text Json

-- `d.get(key, default)`
abbrev pub get_default : Dict Text Json → Text → Json → Json
get_default d key default = or_default (get d key) default

-- `MIN_POLL_INTERVAL`, `MAX_POLL_INTERVAL`
abbrev pub min_poll_interval : ℕ
min_poll_interval = 1

abbrev pub max_poll_interval : ℕ
max_poll_interval = 60
