-- ===== src/Gc3/ConfigFlow/Steps.antt =====
-- What the steps of the config flow let through.
use homeassistant_2gig_gc.Prelude.{
  ◌≡◌, refl, sym, ap, ◌∙◌, inl, inr, Bool-cases, ℕ, false, Option, none, some, Text, codes, text_Eq,
  ◌==◌, eq_of_==, Dict, get, merge, keys, contains, get-merge_absent,
}
use homeassistant_2gig_gc.Python.Effects.{
  Result, ok, raised, gc3, auth_error, connection_error, response_error, Ensures, Ensures-self,
  Ensures-continue, Exec,
}
use homeassistant_2gig_gc.Python.Json.{Json, Fields, obj}
use homeassistant_2gig_gc.Pygc3.Models.{PanelStatus, panel_status}
use homeassistant_2gig_gc.Pygc3.Client
use homeassistant_2gig_gc.Pygc3.Client.{Env, World, Gc3Client}
use homeassistant_2gig_gc.Pygc3.Client.Failures.{payload_of, value_of, request-payload}
use homeassistant_2gig_gc.Gc3.Setup.{client_of}
use homeassistant_2gig_gc.Gc3.Coordinator.Polling.{status_reply}
use homeassistant_2gig_gc.Gc3.ConfigFlow.{
  FlowResult, show_form, create_entry, update_entry, abort, error_key, validate_by, validate,
  unique_id_of, validated, conclude_step, base_error, entry_title, or_abort, async_step_user,
  async_step_reconfigure, async_step_reauth_confirm,
}

-- The panel answered the status request that a client with this data sends, with a status below 400
-- and a JSON object.
pub record IsAccepted (env : Env) (shared : ℕ) (input : Dict Text Json) (w : World) : Type 0 where
  pub client : Gc3Client
  pub made : client_of env.repr shared input ≡ ok client
  pub fields : Fields
  pub answered : payload_of (status_reply env (record w { client = client })) ≡ some (obj fields)

object_payload :
    (repr : Json → Text) (reply : Client.Reply) (v : Json)
    → payload_of reply ≡ some v
    → Ensures (λ s. (fs : Fields) × (payload_of reply ≡ some (obj fs))) (panel_status repr v)
unfolding panel_status
object_payload repr reply (obj fs) e = (fs, e)
object_payload repr reply _ e = tt

status-answered :
    (env : Env) (w : World)
    → Ensures
        (λ s. (fs : Fields) × (payload_of (status_reply env w) ≡ some (obj fs)))
        (Client.status env w).0
unfolding Client.status
status-answered env w =
    let asked = Client.request env (codes "GET") (codes "/api/v1/status") none none w in
    Ensures-continue (λ v. asked.0 ≡ ok v) _ asked.0 _ asked.1 (Ensures-self asked.0)
      λ v got. object_payload env.repr (status_reply env w) v (
        sym (request-payload env (codes "GET") (codes "/api/v1/status") none none w)
        ∙ ap value_of got)

-- What `None` of `_validate` says.
abbrev Validated : Env → ℕ → Dict Text Json → World → Option Text → Type 0
Validated env shared input w none = IsAccepted env shared input w
Validated env shared input w (some err) = Unit

error_key-Validated :
    (env : Env) (shared : ℕ) (input : Dict Text Json) (w : World) (c : Gc3Client)
    → client_of env.repr shared input ≡ ok c
    → (r : Result PanelStatus)
    → Ensures
        (λ s.
          (fs : Fields) × (payload_of (status_reply env (record w { client = c })) ≡ some (obj fs)))
        r
    → Ensures (Validated env shared input w) (error_key r)
unfolding error_key
error_key-Validated env shared input w c e (ok s) (fs, h) = record {
  client = c;
  made = e;
  fields = fs;
  answered = h;
}
error_key-Validated env shared input w c e (raised (gc3 (auth_error m))) h = tt
error_key-Validated env shared input w c e (raised (gc3 (connection_error m))) h = tt
error_key-Validated env shared input w c e (raised (gc3 (response_error m status))) h = tt
error_key-Validated env shared input w c e (raised _) h = tt

validate_by-Validated :
    (env : Env) (shared : ℕ) (input : Dict Text Json) (w : World) (r : Result Gc3Client)
    → client_of env.repr shared input ≡ r
    → Ensures (Validated env shared input w) (validate_by env r w).0
validate_by-Validated env shared input w (raised e) h = tt
validate_by-Validated env shared input w (ok c) h =
    error_key-Validated env shared input w c h _ (status-answered env (record w { client = c }))

validate-Validated :
    (env : Env) (shared : ℕ) (input : Dict Text Json) (w : World)
    → Ensures (Validated env shared input w) (validate env shared input w).0
unfolding validate
validate-Validated env shared input w = validate_by-Validated env shared input w _ refl

-- A step that ends in what it does for good data was given good data.
pub validated-Validated {ℓ} :
    (env : Env) (shared : ℕ) (step : Text) (input : Dict Text Json) (done : FlowResult) (w : World)
    (P : FlowResult → Type ℓ)
    → ((form : Text) (errors : Dict Text Text) → P (show_form form errors))
    → (IsAccepted env shared input w → P done)
    → Ensures P (validated env shared step input done w).0
validated-Validated env shared step input done w P forms good =
    let asked = validate env shared input w in
    Ensures-continue (Validated env shared input w) P asked.0 _ asked.1
      (validate-Validated env shared input w) λ err h. concluded err h
  where
    concluded :
        (err : Option Text) → Validated env shared input w err → P (conclude_step step done err)
    concluded none h = good h
    concluded (some e) h = forms step (base_error e)

-- What the user step says by the entry that it creates.
abbrev pub Created : Env → ℕ → (Text → Option Text) → Dict Text Json → World → FlowResult → Type 0
Created env shared claim input w (create_entry unique_id title stored) =
    (unique_id_of input ≡ ok unique_id)
    × (claim unique_id ≡ none)
    × (stored ≡ input)
    × IsAccepted env shared input w
Created env shared claim input w _ = Unit

pub or_abort-Ensures {ℓ} :
    (P : FlowResult → Type ℓ) (reason : Option Text) (rest : Exec World FlowResult) (w : World)
    → ((text : Text) → P (abort text))
    → (reason ≡ none → Ensures P (rest w).0)
    → Ensures P (or_abort reason rest w).0
or_abort-Ensures P none rest w aborts go = go refl
or_abort-Ensures P (some text) rest w aborts go = aborts text

-- The user step creates an entry only under the lower-case host that was entered, for which Home
-- Assistant has no reason to abort, with the input as its data, and after the panel answered a status
-- request made with that data by a JSON object.
pub user-Created :
    (env : Env) (shared : ℕ) (claim : Text → Option Text) (input : Dict Text Json) (w : World)
    → Ensures (Created env shared claim input w) (async_step_user env shared claim (some input) w).0
unfolding async_step_user
user-Created env shared claim input w =
    Ensures-continue (λ u. unique_id_of input ≡ ok u) _ (unique_id_of input) _ w
      (Ensures-self (unique_id_of input))
      λ u named.
        or_abort-Ensures _ (claim u) _ w (λ text. tt)
          λ free.
            validated-Validated env shared (codes "user") input (create_entry u entry_title input) w
              (Created env shared claim input w) (λ form errors. tt) (λ h. (named, free, refl, h))

-- What the reconfigure step says by the data that it gives the entry. It creates none.
abbrev pub Reconfigured :
    Env → ℕ → (Text → Option Text) → Text → Dict Text Json → World → FlowResult → Type 0
Reconfigured env shared claim entry_unique_id input w (create_entry unique_id title stored) = ⊥
Reconfigured env shared claim entry_unique_id input w (update_entry new) =
    (unique_id_of new ≡ ok entry_unique_id)
    × (claim entry_unique_id ≡ none)
    × (new ≡ input)
    × IsAccepted env shared new w
Reconfigured env shared claim entry_unique_id input w _ = Unit

-- The reconfigure step creates no entry, and gives the entry new data only when their host in lower case is
-- the unique id of the entry, so that the host changes in letter case at most; when Home Assistant has no
-- reason to abort for it; and after the panel answered a status request made with the new data, which are
-- the input, by a JSON object.
pub reconfigure-Reconfigured :
    (env : Env) (shared : ℕ) (claim : Text → Option Text) (entry_unique_id : Text)
    (input : Dict Text Json) (w : World)
    → Ensures
        (Reconfigured env shared claim entry_unique_id input w)
        (async_step_reconfigure env shared claim entry_unique_id (some input) w).0
unfolding async_step_reconfigure
reconfigure-Reconfigured env shared claim entry_unique_id input w =
    Ensures-continue (λ u. unique_id_of input ≡ ok u) _ (unique_id_of input) _ w
      (Ensures-self (unique_id_of input))
      λ u named.
        or_abort-Ensures _ (claim u) _ w (λ text. tt)
          λ free. elim (Bool-cases (u == entry_unique_id)) [
            | inr other ↦ rw other tt
            | inl same ↦
                let own = eq_of_== u entry_unique_id same in
                rw same (
                  validated-Validated env shared (codes "reconfigure") input (update_entry input) w
                    (Reconfigured env shared claim entry_unique_id input w) (λ form errors. tt)
                    (λ h. (named ∙ ap ok own, ap claim (sym own) ∙ free, refl, h)))
          ]

-- What the reauth step says by the data that it gives the entry.
abbrev pub Renewed : Env → ℕ → Dict Text Json → Dict Text Json → World → FlowResult → Type 0
Renewed env shared stored input w (update_entry new) =
    ((k : Text) → contains (keys input) k ≡ false → get new k ≡ get stored k)
    × IsAccepted env shared new w
Renewed env shared stored input w _ = Unit

-- The reauth step gives the entry new data only after the panel answered a status request made with
-- it by a JSON object, and keeps every key that was not entered: the host, the port and the PIN stay.
pub reauth-Renewed :
    (env : Env) (shared : ℕ) (stored input : Dict Text Json) (w : World)
    → Ensures
        (Renewed env shared stored input w)
        (async_step_reauth_confirm env shared stored (some input) w).0
unfolding async_step_reauth_confirm
reauth-Renewed env shared stored input w =
    validated-Validated env shared (codes "reauth_confirm") (merge stored input)
      (update_entry (merge stored input)) w (Renewed env shared stored input w) (λ form errors. tt)
      (λ h. (get-merge_absent stored input, h))
