-- ===== src/Gc3/Coordinator/Polling.antt =====
-- What a poll does to the coordinator, when it succeeds and when it fails.
use homeassistant_2gig_gc.Prelude.{
  ◌≡◌, refl, ◌∙◌, Bool, true, false, List, Text, codes, text_Eq, All, if◌then◌else◌, none,
}
use homeassistant_2gig_gc.Python.Effects.{
  Result, ok, raised, Ensures, Ensures-then, Ensures-continue, gc3, auth_error, connection_error,
  response_error, config_entry_auth_failed,
}
use homeassistant_2gig_gc.Pygc3.Models.{PanelStatus, Zone}
use homeassistant_2gig_gc.Pygc3.Client
use homeassistant_2gig_gc.Pygc3.Client.{World, Env}
use homeassistant_2gig_gc.Pygc3.Client.Failures.{
  is_auth_error, is_refusal, reply_to, request-refusal,
}
use homeassistant_2gig_gc.Pygc3.Client.Listing.{IsSensor, Ensures-zones}
use homeassistant_2gig_gc.Gc3.Coordinator.{
  Coordinator, Gc3Data, update_supervision_issues, fetch, absorb, new_data, update_data, is_idle,
  store,
}

-- What a poll leaves behind: after a good one the flag and the bookkeeping follow from the snapshot;
-- after a failed one they are as before, and no exception of pygc3 is let through.
abbrev pub Outcome : Coordinator → Result Gc3Data → Coordinator → Type 0
Outcome c (ok d) c' =
    (c'.armed_night ≡ (if is_idle d.status then false else c.armed_night))
    × (c'.supervision ≡ update_supervision_issues c.entry.entry_id d.zones c.supervision)
    × All IsSensor d.zones
Outcome c (raised (gc3 e)) c' = ⊥
Outcome c (raised e) c' =
    (c'.armed_night ≡ c.armed_night) × (c'.supervision ≡ c.supervision) × (c'.last ≡ c.last)

Ensures-fetch : (env : Env) (w : World) → Ensures (λ p. All IsSensor p.1) (fetch env w).0
unfolding fetch
Ensures-fetch env w =
    let (r, w') = Client.status env w in
    Ensures-then (λ p. All IsSensor p.1) r _ w'
      λ status.
        let (zs, w'') = Client.zones env false w' in
        Ensures-continue (All IsSensor) (λ p. All IsSensor p.1) zs _ w'' (Ensures-zones env w')
          (λ zones h. h)

pub store-Outcome :
    (c : Coordinator) (w : World) (r : Result (PanelStatus × List Zone))
    → Ensures (λ p. All IsSensor p.1) r
    → let (r', c') = store r (record c { world = w }) in Outcome c r' c'
unfolding new_data absorb
store-Outcome c w (ok p) h = (refl, refl, h)
store-Outcome c w (raised (gc3 (auth_error m))) h = (refl, refl, refl)
store-Outcome c w (raised (gc3 (connection_error m))) h = (refl, refl, refl)
store-Outcome c w (raised (gc3 (response_error m status))) h = (refl, refl, refl)
store-Outcome c w (raised _) h = (refl, refl, refl)

-- For every answer of the panel: a poll that succeeds clears the night flag exactly when the panel is
-- neither armed nor arming, updates the supervision by the zones it returns, and returns no console;
-- a poll that fails leaves flag, supervision and snapshot as they were and raises no exception of
-- pygc3.
pub update_data-Outcome :
    (env : Env) (c : Coordinator) → Outcome c (update_data env c).0 (update_data env c).1
unfolding update_data
update_data-Outcome env c =
    let (r, w) = fetch env c.world in store-Outcome c w r (Ensures-fetch env c.world)

abbrev pub is_auth_failed {ℓ} : {A : Type ℓ} → Result A → Bool
is_auth_failed (raised (config_entry_auth_failed m)) = true
is_auth_failed r = false

auth_error_inv {ℓ} :
    {A : Type ℓ} (r : Result A)
    → is_auth_error r ≡ true
    → (m : Text) × (r ≡ raised (gc3 (auth_error m)))
auth_error_inv (raised (gc3 (auth_error m))) h = (m, refl)
auth_error_inv _ h = cc

-- The reply of the panel to the first request of a poll.
abbrev pub status_reply : Env → World → Client.Reply
status_reply env w = reply_to env (codes "GET") (codes "/api/v1/status") none none w

-- A poll whose status request the panel refuses with 403 ends in `ConfigEntryAuthFailed`, which makes
-- Home Assistant ask for new credentials.
pub update_data-refused :
    (env : Env) (c : Coordinator)
    → is_refusal (status_reply env c.world) ≡ true
    → is_auth_failed (update_data env c).0 ≡ true
unfolding update_data fetch Client.status
update_data-refused env c h =
    let asked = Client.request env (codes "GET") (codes "/api/v1/status") none none c.world in
    let (m, e) =
      auth_error_inv asked.0
        (request-refusal env (codes "GET") (codes "/api/v1/status") none none c.world ∙ h) in
    rw e refl
