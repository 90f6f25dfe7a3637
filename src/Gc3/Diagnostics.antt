-- ===== src/Gc3/Diagnostics.antt =====
-- custom_components/gc3/diagnostics.py: the report for a config entry. Home Assistant's
-- `async_redact_data` is a parameter, and so are the printed form of a time interval and the flag of the
-- last update, which Home Assistant keeps.
use homeassistant_2gig_gc.Prelude.{
  ◌≡◌, ap, true, Bool, Option, List, [], ◌∷◌, map, Text, codes, text_Eq, Dict, put, contains,
  is_empty, false,
}
use mathlib.Core.Option.{none, some}
use homeassistant_2gig_gc.Python.Json.{Json, null, str}
use homeassistant_2gig_gc.Gc3.Const.{conf_api_key, conf_pairing_key, conf_disarm_pin, conf_host}
use homeassistant_2gig_gc.Gc3.Coordinator.{AlarmState, Gc3Data, Coordinator, alarm_state}

-- `TO_REDACT_ENTRY`
abbrev pub to_redact_entry : List Text
to_redact_entry = conf_api_key ∷ conf_pairing_key ∷ conf_disarm_pin ∷ conf_host ∷ []

-- `TO_REDACT_ZONE`
abbrev pub to_redact_zone : List Text
to_redact_zone = codes "deviceSerialNumber" ∷ []

-- What Home Assistant gives: `async_redact_data` on a dict and on parsed JSON, and `str` of an interval.
pub record Reporting : Type 0 where
  pub redact_data : Dict Text Json → List Text → Dict Text Json
  pub redact_raw : Json → List Text → Json
  pub interval_text : Json → Text

pub record Diagnostics : Type 0 where
  pub entry_data : Dict Text Json
  pub options : Dict Text Json
  pub last_update_success : Bool
  pub update_interval : Text
  pub alarm_state : Option AlarmState
  pub status : Json
  pub zones : List Json

abbrev pub status_of : Option Gc3Data → Json
status_of none = null
status_of (some d) = d.status.raw

abbrev pub zones_of : Reporting → Option Gc3Data → List Json
zones_of reporting none = []
zones_of reporting (some d) = map (λ z. reporting.redact_raw z.raw to_redact_zone) d.zones

-- `async_get_config_entry_diagnostics`
unfoldable pub diagnostics : Reporting → Bool → Coordinator → Diagnostics
unfolding alarm_state
diagnostics reporting success c = record {
  entry_data = reporting.redact_data c.entry.stored to_redact_entry;
  options = c.entry.options;
  last_update_success = success;
  update_interval = reporting.interval_text c.poll_interval;
  alarm_state = alarm_state c;
  status = status_of c.last;
  zones = zones_of reporting c.last;
}

-- The same coordinator, with one value of the entry's data replaced.
abbrev pub with_value : Coordinator → Text → Json → Coordinator
with_value c k v = record c { entry = record c.entry { stored = put c.entry.stored k v } }

-- Where `async_redact_data` hides which text stands under a key that it was given, the report of an
-- entry is the same for any two texts, neither empty, as the disarm PIN, a key or the host.
diagnostics-hides :
    (reporting : Reporting)
    (hides : (d : Dict Text Json) (ks : List Text) (k a b : Text)
      → contains ks k ≡ true
      → is_empty a ≡ false
      → is_empty b ≡ false
      → reporting.redact_data (put d k (str a)) ks ≡ reporting.redact_data (put d k (str b)) ks)
    (success : Bool) (c : Coordinator) (k a b : Text)
    → contains to_redact_entry k ≡ true
    → is_empty a ≡ false
    → is_empty b ≡ false
    → diagnostics reporting success (with_value c k (str a))
      ≡ diagnostics reporting success (with_value c k (str b))
unfolding diagnostics alarm_state
diagnostics-hides reporting hides success c k a b listed filled filled' =
    ap
      (λ data_shown. record {
        entry_data = data_shown;
        options = c.entry.options;
        last_update_success = success;
        update_interval = reporting.interval_text c.poll_interval;
        alarm_state = alarm_state c;
        status = status_of c.last;
        zones = zones_of reporting c.last;
      })
      (hides c.entry.stored to_redact_entry k a b listed filled filled')
