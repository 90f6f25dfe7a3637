-- ===== src/Gc3/ConfigFlow/Schemas.antt =====
-- The schemas of the forms in custom_components/gc3/config_flow.py, as data. The validation itself is that
-- of voluptuous: `Conforms` is what its documentation says of a form that passed.
use homeassistant_2gig_gc.Prelude.{
  ℕ, ◌≤◌, ◌≡◌, true, false, some, List, [], ◌∷◌, map, Text, text_Eq, Dict, get, keys, contains,
  IsDistinct, All, pos,
}
use homeassistant_2gig_gc.Python.Json.{Json, bool, int, str}
use homeassistant_2gig_gc.Gc3.Const.{
  conf_host, conf_port, conf_api_key, conf_pairing_key, conf_disarm_pin, conf_partition,
  conf_poll_interval, conf_no_entry_delay, conf_night_no_entry_delay, conf_bypass_not_ready,
  default_port, default_partition, default_poll_interval, min_poll_interval, max_poll_interval,
  get_default,
}

-- `str`, `int`, `bool`, and `vol.All(int, vol.Range(min=…, max=…))`.
pub data Kind : Type 0 where
  text whole flag : Kind
  between : ℕ → ℕ → Kind

-- `vol.Required(key)` and `vol.Optional(key, default=…)`.
pub data FormField : Type 0 where
  required : Text → Kind → FormField
  optional : Text → Json → Kind → FormField

abbrev pub field_key : FormField → Text
field_key (required key kind) = key
field_key (optional key fallback kind) = key

abbrev pub field_kind : FormField → Kind
field_kind (required key kind) = kind
field_kind (optional key fallback kind) = kind

-- `STEP_USER_SCHEMA`
abbrev pub user_schema : List FormField
user_schema =
    required conf_host text
    ∷ required conf_api_key text
    ∷ required conf_pairing_key text
    ∷ optional conf_disarm_pin (str []) text
    ∷ optional conf_port default_port whole
    ∷ optional conf_partition default_partition whole
    ∷ []

-- `STEP_REAUTH_SCHEMA`
abbrev pub reauth_schema : List FormField
reauth_schema = required conf_api_key text ∷ required conf_pairing_key text ∷ []

-- The schema of the options form.
unfoldable pub options_schema : Dict Text Json → List FormField
options_schema options =
    optional conf_poll_interval (get_default options conf_poll_interval default_poll_interval)
      (between min_poll_interval max_poll_interval)
    ∷ optional conf_no_entry_delay (get_default options conf_no_entry_delay (bool false)) flag
    ∷ optional conf_night_no_entry_delay
        (get_default options conf_night_no_entry_delay (bool false)) flag
    ∷ optional conf_bypass_not_ready (get_default options conf_bypass_not_ready (bool false)) flag
    ∷ []

-- A value of that kind. In Python a Boolean is an `int` too.
abbrev pub IsOf : Kind → Json → Type 0
IsOf text (str t) = Unit
IsOf whole (int n) = Unit
IsOf whole (bool b) = Unit
IsOf flag (bool b) = Unit
IsOf (between low high) (int (pos n)) = (low ≤ n) × (n ≤ high)
IsOf (between low high) (bool true) = (low ≤ 1) × (1 ≤ high)
IsOf (between low high) (bool false) = low ≤ 0
IsOf kind v = ⊥

-- The data have a value of its kind under the key of the field.
abbrev pub Has : Dict Text Json → FormField → Type 0
Has d f = (v : Json) × (get d (field_key f) ≡ some v) × IsOf (field_kind f) v

abbrev pub Fits : List FormField → Dict Text Json → Type 0
Fits schema d = All (Has d) schema

-- The output of a schema: every field is there, an optional one with its default where it was left out,
-- and no other key is.
pub record Conforms (schema : List FormField) (d : Dict Text Json) : Type 0 where
  pub fits : Fits schema d
  pub distinct : IsDistinct (keys d)
  pub known : (k : Text) → contains (keys d) k ≡ true → contains (map field_key schema) k ≡ true
