-- ===== src/Gc3/Setup/Ready.antt =====
-- When an entry is set up, and what a reload leaves behind.
use homeassistant_2gig_gc.Prelude.{◌≡◌, refl, sym, ap, ℕ, Bool, true, some, [], ◌∷◌, ◌++◌}
use homeassistant_2gig_gc.Python.Effects.{Result, ok, raised, Error}
use homeassistant_2gig_gc.Pygc3.Client.{Env, World}
use homeassistant_2gig_gc.Gc3.Const.{ConfigEntry}
use homeassistant_2gig_gc.Gc3.Coordinator.{Coordinator, Gc3Data, update_data}
use homeassistant_2gig_gc.Gc3.Setup.{
  Runtime, forward_setups, listen_for_options, platforms, FirstRefresh, finish_setup,
  refresh_and_finish, setup_coordinator, async_setup_entry,
}

-- What Home Assistant documents of `async_config_entry_first_refresh`: the data of a first update that
-- succeeds are stored, and after one that fails it raises.
pub record IsFirstRefresh (first_refresh : FirstRefresh) : Type 0 where
  pub stores :
      (d : Gc3Data) (c : Coordinator)
      → first_refresh (ok d, c) ≡ (ok tt, record c { last = some d })
  pub raises :
      (e : Error) (c : Coordinator) → (e' : Error) × ((first_refresh (raised e, c)).0 ≡ raised e')

-- What a setup leaves behind. After success the entry has a coordinator with the snapshot of a poll of
-- the panel, and the platforms are set up; after a failure nothing is asked of Home Assistant.
abbrev pub SetUp : Env → Runtime → Result Bool → Runtime → Type 0
SetUp env before (ok done) after =
    (done ≡ true)
    × (c : Coordinator) × (d : Gc3Data) × ((update_data env c).0 ≡ ok d)
    × (after.coordinator ≡ some (record (update_data env c).1 { last = some d }))
    × (after.calls ≡ before.calls ++ forward_setups platforms ∷ listen_for_options ∷ [])
SetUp env before (raised e) after = after ≡ before

raised-SetUp :
    (env : Env) (before : Runtime) (p : Result (Unit {0}) × Coordinator) (e : Error)
    → p.0 ≡ raised e
    → let (r, after) = finish_setup p before in SetUp env before r after
raised-SetUp env before (ok u, c) e h = cc
raised-SetUp env before (raised e', c) e h = refl

first-SetUp :
    (env : Env) (first_refresh : FirstRefresh)
    → IsFirstRefresh first_refresh
    → (c c' : Coordinator) (r : Result Gc3Data) (before : Runtime) → update_data env c ≡ (r, c')
    → let (done, after) = finish_setup (first_refresh (r, c')) before in SetUp env before done after
first-SetUp env first_refresh h c c' (ok d) before e = rw (h.stores d c') (
  refl,
  c,
  d,
  ap (λ p. p.0) e,
  ap (λ (p : Result Gc3Data × Coordinator). some (record p.1 { last = some d })) (sym e),
  refl,
)
first-SetUp env first_refresh h c c' (raised err) before e =
    let (err', raising) = h.raises err c' in
    raised-SetUp env before (first_refresh (raised err, c')) err' raising

with-SetUp :
    (env : Env) (first_refresh : FirstRefresh)
    → IsFirstRefresh first_refresh
    → (r : Result Coordinator) (before : Runtime)
    → let (done, after) = refresh_and_finish env first_refresh r before in
      SetUp env before done after
with-SetUp env first_refresh h (ok c) before =
    first-SetUp env first_refresh h c (update_data env c).1 (update_data env c).0 before refl
with-SetUp env first_refresh h (raised e) before = refl

-- Setting up an entry, for every answer of the panel: it returns true only behind a poll that succeeded,
-- whose snapshot the coordinator of the entry then has, and with the platforms set up; where it raises,
-- neither the entry nor Home Assistant has been touched.
pub async_setup_entry-SetUp :
    (env : Env) (first_refresh : FirstRefresh)
    → IsFirstRefresh first_refresh
    → (shared : ℕ) (entry : ConfigEntry) (w : World) (before : Runtime)
    → let (done, after) = async_setup_entry env first_refresh shared entry w before in
      SetUp env before done after
unfolding async_setup_entry
async_setup_entry-SetUp env first_refresh h shared entry w before =
    with-SetUp env first_refresh h (setup_coordinator env.repr shared entry w) before
