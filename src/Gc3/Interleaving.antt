-- ===== src/Gc3/Interleaving.antt =====
-- custom_components/gc3/coordinator.py under asyncio: `_async_update_data` awaits two requests, and a
-- service call can run between them. A step here is one request with its answer, and what the code
-- does behind it up to its next request.
pub mod Races
pub mod Outage
use homeassistant_2gig_gc.Prelude.{
  ◌≡◌, refl, Bool, true, false, ◌&&◌, if◌then◌else◌, Option, none, some, List, [],
}
use homeassistant_2gig_gc.Python.Effects.{Result, ok, raised, continue}
use homeassistant_2gig_gc.Pygc3.Models.{PanelStatus, Zone}
use homeassistant_2gig_gc.Pygc3.Client
use homeassistant_2gig_gc.Pygc3.Client.{Env, World}
use homeassistant_2gig_gc.Gc3.Coordinator.{
  Coordinator, Gc3Data, is_idle, on_client, convert_error, store, fetch, absorb, new_data,
  update_data,
}
use homeassistant_2gig_gc.Gc3.AlarmControlPanel.Commands.{Command, is_night, perform}
use homeassistant_2gig_gc.Gc3.Lifetime.{zones_polled}

-- `_async_update_data` up to the answer of its first request.
unfoldable pub begin_poll : Env → Coordinator → Result PanelStatus × Coordinator
begin_poll env = on_client (Client.status env)

abbrev with_status : PanelStatus → Result (List Zone) → Result (PanelStatus × List Zone)
with_status s (ok zones) = ok (s, zones)
with_status s (raised e) = raised e

-- The rest of `_async_update_data`, with the status that it has.
unfoldable pub end_poll : Env → PanelStatus → Coordinator → Result Gc3Data × Coordinator
unfolding absorb new_data
end_poll env s c = let (r, c') = on_client (Client.zones env false) c in store (with_status s r) c'

-- `_async_update_data` behind its first request.
abbrev pub go_on : Env → Result PanelStatus × Coordinator → Result Gc3Data × Coordinator
go_on env (ok s, c) = end_poll env s c
go_on env (raised e, c) = (raised (convert_error e), c)

then_store :
    (c : Coordinator) (s : PanelStatus) (r : Result (List Zone)) (w : World)
    → (let (r', w') = continue r (λ zones v. (ok (s, zones), v)) w in
        store r' (record c { world = w' }))
      ≡ store (with_status s r) (record c { world = w })
unfolding absorb new_data
then_store c s (ok zones) w = refl
then_store c s (raised e) w = refl

split_at :
    (env : Env) (c : Coordinator) (r : Result PanelStatus) (w : World)
    → (let (r', w') =
          continue r
            (λ s v.
              let (zs, v') = Client.zones env false v in
              continue zs (λ zones v''. (ok (s, zones), v'')) v')
            w in
        store r' (record c { world = w' }))
      ≡ go_on env (r, record c { world = w })
unfolding end_poll absorb new_data
split_at env c (ok s) w = let (zs, w') = Client.zones env false w in then_store c s zs w'
split_at env c (raised e) w = refl

-- A poll that nothing comes between is its two parts, one after the other.
pub update_data-split :
    (env : Env) (c : Coordinator) → update_data env c ≡ go_on env (begin_poll env c)
unfolding update_data fetch begin_poll end_poll absorb new_data
update_data-split env c = let (r, w) = Client.status env c.world in split_at env c r w

-- A poll is under way, with the status that it has, or there is none.
pub data Phase : Type 0 where
  no_poll : Phase
  waiting : PanelStatus → Phase

abbrev pub phase_of : Result PanelStatus → Phase
phase_of (ok s) = waiting s
phase_of (raised e) = no_poll

-- Home Assistant stores the snapshot of a poll that succeeded in the same step.
abbrev pub keep_snapshot : Result Gc3Data → Coordinator → Coordinator
keep_snapshot (ok d) c = record c { last = some d }
keep_snapshot (raised e) c = c

-- What comes of `c` in any order of polls and service calls, with the zones of the polls that succeeded,
-- the last of them first. One poll runs at a time, and service calls come between any two steps.
pub data Run (env : Env) (c : Coordinator) : List (List Zone) → Phase → Coordinator → Type 0 where
  start : Run env c [] no_poll c
  begins :
      {polls : List (List Zone)} {d : Coordinator}
      → Run env c polls no_poll d
      → Run env c polls (phase_of (begin_poll env d).0) (begin_poll env d).1
  ends :
      {polls : List (List Zone)} {s : PanelStatus} {d : Coordinator}
      → Run env c polls (waiting s) d
      → Run env c
          (zones_polled (end_poll env s d).0 polls)
          no_poll
          (keep_snapshot (end_poll env s d).0 (end_poll env s d).1)
  serves :
      {polls : List (List Zone)} {phase : Phase} {d : Coordinator}
      → Run env c polls phase d
      → (cmd : Command) → Run env c polls phase (perform env cmd d).1

abbrev pub succeeded {ℓ} : {A : Type ℓ} → Result A → Bool
succeeded (ok a) = true
succeeded (raised e) = false

-- The night flag by what happened: it is that of the last command that succeeded, unless a poll ended
-- well behind it whose first request, which may have come before the command, found the panel neither
-- armed nor arming.
abbrev pub night_by :
    {env : Env} {c : Coordinator} {polls : List (List Zone)} {phase : Phase} {d : Coordinator}
    → Run env c polls phase d
    → Bool
night_by {c} start = c.armed_night
night_by (begins run) = night_by run
night_by {env} (ends {s} {d} run) =
    let before = night_by run in
    if succeeded (end_poll env s d).0 && is_idle s then false else before
night_by {env} (serves {d} run cmd) =
    let before = night_by run in if succeeded (perform env cmd d).0 then is_night cmd else before
