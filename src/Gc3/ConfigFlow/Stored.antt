-- ===== src/Gc3/ConfigFlow/Stored.antt =====
-- The data of an entry over the steps of the config flow.
use homeassistant_2gig_gc.Prelude.{
  ℕ, ◌≡◌, refl, ◌∙◌, inl, inr, false, Option, some, List, [], ◌∷◌, Text, codes, text_Eq, ◌==◌, Dict,
  get, merge, keys, contains, get-merge_absent, get-merge_present, key_of_get, Bool-cases, text_eq,
}
use homeassistant_2gig_gc.Python.Effects.{Exec, Ensures, Ensures-then}
use homeassistant_2gig_gc.Python.Json.{Json, str}
use homeassistant_2gig_gc.Pygc3.Client.{Env, World}
use homeassistant_2gig_gc.Gc3.Const.{
  conf_host, conf_api_key, conf_pairing_key, conf_disarm_pin, conf_port, conf_partition,
  default_port, default_partition,
}
use homeassistant_2gig_gc.Gc3.ConfigFlow.{
  FlowResult, create_entry, update_entry, unique_id_of, validated, entry_title, async_step_user,
  async_step_reconfigure, async_step_reauth_confirm,
}
use homeassistant_2gig_gc.Gc3.ConfigFlow.Steps.{validated-Validated, or_abort-Ensures}
use homeassistant_2gig_gc.Gc3.ConfigFlow.Schemas.{
  text, whole, required, optional, FormField, user_schema, reauth_schema, Has, Fits, Conforms,
  field_key,
}

module _ (stored input : Dict Text Json) (h : Conforms reauth_schema input) where
  -- A key that the reauth form does not have keeps its value.
  kept :
      (k : Text)
      → contains (conf_api_key ∷ conf_pairing_key ∷ []) k ≡ false
      → get (merge stored input) k ≡ get stored k
  kept k other = elim (Bool-cases (contains (keys input) k)) [
    | inl there ↦ let known = h.known k there in cc (known, other)
    | inr gone ↦ get-merge_absent stored input k gone
  ]

  kept-Has :
      (f : FormField)
      → contains (conf_api_key ∷ conf_pairing_key ∷ []) (field_key f) ≡ false
      → Has stored f
      → Has (merge stored input) f
  kept-Has f other (v, found, typed) = (v, kept (field_key f) other ∙ found, typed)

  entered-Has : (f : FormField) → Has input f → Has (merge stored input) f
  entered-Has f (v, found, typed) =
      let there = key_of_get input (field_key f) v found in
      (v, get-merge_present stored input (field_key f) h.distinct there ∙ found, typed)

  merge-Fits : Fits user_schema stored → Fits user_schema (merge stored input)
  unfolding contains text_eq
  merge-Fits (host, (api, (key, (pin, (port, (partition, rest)))))) =
      let (new_api, (new_key, end)) = h.fits in
      (
        kept-Has (required conf_host text) refl host,
        (
          entered-Has (required conf_api_key text) new_api,
          (
            entered-Has (required conf_pairing_key text) new_key,
            (
              kept-Has (optional conf_disarm_pin (str []) text) refl pin,
              (
                kept-Has (optional conf_port default_port whole) refl port,
                (kept-Has (optional conf_partition default_partition whole) refl partition, tt),
              ),
            ),
          ),
        ),
      )

-- The data that a step gives an entry fit the schema of the user step.
abbrev pub GivesFit : FlowResult → Type 0
GivesFit (create_entry unique_id title stored) = Fits user_schema stored
GivesFit (update_entry new) = Fits user_schema new
GivesFit _ = Unit

-- A submission of one of the three forms, for an entry with these data.
pub data Submission : Type 0 where
  user reconfigure reauth : Submission

abbrev pub schema_of : Submission → List FormField
schema_of user = user_schema
schema_of reconfigure = user_schema
schema_of reauth = reauth_schema

module _ (env : Env) (shared : ℕ) (claim : Text → Option Text) (entry_unique_id : Text)
    (stored : Dict Text Json) where
  abbrev pub submit : Submission → Dict Text Json → Exec World FlowResult
  submit user input = async_step_user env shared claim (some input)
  submit reconfigure input = async_step_reconfigure env shared claim entry_unique_id (some input)
  submit reauth input = async_step_reauth_confirm env shared stored (some input)

  validated-GivesFit :
      (step : Text) (input : Dict Text Json) (done : FlowResult) (w : World)
      → GivesFit done
      → Ensures GivesFit (validated env shared step input done w).0
  validated-GivesFit step input done w h =
      validated-Validated env shared step input done w GivesFit (λ form errors. tt) (λ accepted. h)

  -- Whichever form of the config flow is submitted, if the input conforms to its schema and the data of
  -- the entry fit that of the user step, then so do the data that the step gives the entry.
  pub submit-GivesFit :
      (s : Submission) (input : Dict Text Json) (w : World)
      → Fits user_schema stored
      → Conforms (schema_of s) input
      → Ensures GivesFit (submit s input w).0
  unfolding async_step_user async_step_reconfigure async_step_reauth_confirm
  submit-GivesFit user input w before h = Ensures-then GivesFit (unique_id_of input) _ w λ u.
      or_abort-Ensures GivesFit (claim u) _ w (λ reason. tt)
        λ free. validated-GivesFit (codes "user") input (create_entry u entry_title input) w h.fits
  submit-GivesFit reconfigure input w before h = Ensures-then GivesFit (unique_id_of input) _ w λ u.
      or_abort-Ensures GivesFit (claim u) _ w (λ reason. tt)
        λ free. elim (Bool-cases (u == entry_unique_id)) [
          | inl same ↦
              rw same (validated-GivesFit (codes "reconfigure") input (update_entry input) w h.fits)
          | inr other ↦ rw other tt
        ]
  submit-GivesFit reauth input w before h =
      validated-GivesFit (codes "reauth_confirm") (merge stored input)
        (update_entry (merge stored input)) w (merge-Fits stored input h before)
