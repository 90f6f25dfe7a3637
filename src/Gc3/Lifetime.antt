-- ===== src/Gc3/Lifetime.antt =====
-- A coordinator over its life: Home Assistant polls, stores snapshots and calls services, in any order.
use homeassistant_2gig_gc.Prelude.{
  text_Eq, ◌≡◌, refl, ap, ◌∙◌, Bool, true, false, inl, inr, List, [], ◌∷◌, IsDistinct, All, some,
  Bool-cases,
}
use homeassistant_2gig_gc.Python.Effects.{
  Result, ok, raised, Exec, gc3, command_failed, no_disarm_pin,
}
use homeassistant_2gig_gc.Python.Json.{Json, truthy}
use homeassistant_2gig_gc.Pygc3.Models.{PanelStatus, Zone}
use homeassistant_2gig_gc.Pygc3.Client.{World, Env}
use homeassistant_2gig_gc.Gc3.Const.{ConfigEntry}
use homeassistant_2gig_gc.Gc3.Coordinator.{
  Coordinator, Gc3Data, zone_ids, update_supervision_issues, update_data, store, fetch, absorb,
  note_arm,
}
use homeassistant_2gig_gc.Gc3.Coordinator.Registry.{Mirrors, update-Mirrors}
use homeassistant_2gig_gc.Gc3.Coordinator.Polling.{Outcome, update_data-Outcome}
use homeassistant_2gig_gc.Gc3.Coordinator.Monitor.{monitor_of, watch, watch_all, update_refines}
use homeassistant_2gig_gc.Gc3.AlarmControlPanel.{command, pin_of, finish_command}
use homeassistant_2gig_gc.Gc3.AlarmControlPanel.Commands.{
  Command, arm_home, arm_away, arm_night, disarm, is_night, perform, Finished, perform-Finished,
}

-- The zones of a poll that succeeded, before those of earlier polls.
abbrev pub zones_polled : Result Gc3Data → List (List Zone) → List (List Zone)
zones_polled (ok d) earlier = d.zones ∷ earlier
zones_polled (raised e) earlier = earlier

-- How a coordinator comes from `c`, with the zones of the polls that succeeded, the last of them first.
pub data Life (env : Env) (c : Coordinator) : List (List Zone) → Coordinator → Type 0 where
  born : Life env c [] c
  polled :
      {polls : List (List Zone)} {d : Coordinator}
      → Life env c polls d
      → Life env c (zones_polled (update_data env d).0 polls) (update_data env d).1
  stored :
      {polls : List (List Zone)} {d : Coordinator}
      → Life env c polls d
      → (s : Gc3Data) → Life env c polls (record d { last = some s })
  served :
      {polls : List (List Zone)} {d : Coordinator}
      → Life env c polls d
      → (cmd : Command) → Life env c polls (perform env cmd d).1

pub store-entry :
    (r : Result (PanelStatus × List Zone)) (c : Coordinator) → (store r c).1.entry ≡ c.entry
unfolding absorb
store-entry (ok p) c = refl
store-entry (raised e) c = refl

update_data-entry : (env : Env) (c : Coordinator) → (update_data env c).1.entry ≡ c.entry
unfolding update_data
update_data-entry env c = let (r, w) = fetch env c.world in store-entry r (record c { world = w })

finish_command-entry :
    (night : Bool) (r : Result Json) (c : Coordinator)
    → (finish_command night r c).1.entry ≡ c.entry
unfolding note_arm
finish_command-entry night (ok v) c = refl
finish_command-entry night (raised (gc3 e)) c = refl
finish_command-entry night (raised _) c = refl

command-entry :
    (action : Exec World Json) (night : Bool) (c : Coordinator)
    → (command action night c).1.entry ≡ c.entry
unfolding command
command-entry action night c =
    let (r, w) = action c.world in finish_command-entry night r (record c { world = w })

pub perform-entry :
    (env : Env) (cmd : Command) (c : Coordinator) → (perform env cmd c).1.entry ≡ c.entry
unfolding perform
perform-entry env arm_home c = command-entry _ false c
perform-entry env arm_away c = command-entry _ false c
perform-entry env arm_night c = command-entry _ true c
perform-entry env (disarm code) c = elim (Bool-cases (truthy (pin_of code c))) [
  | inl given ↦ rw given (command-entry _ false c)
  | inr missing ↦ rw missing refl
]

pub Finished-supervision :
    (night : Bool) (c : Coordinator) (r : Result (Unit {0})) (c' : Coordinator)
    → Finished night c r c'
    → c'.supervision ≡ c.supervision
Finished-supervision night c (ok u) c' h = h.3
Finished-supervision night c (raised (command_failed m)) c' h = h.3
Finished-supervision night c (raised no_disarm_pin) c' h = h.3
Finished-supervision night c (raised _) c' h = absurd h

-- The repair issues of the entry that stand are those of the monitor over these polls.
pub record Refines (c : Coordinator) (polls : List (List Zone)) (d : Coordinator) : Type 0 where
  pub mirrors : Mirrors c.entry.entry_id d.supervision
  pub monitored :
      monitor_of c.entry.entry_id d.supervision
      ≡ watch_all (monitor_of c.entry.entry_id c.supervision) polls

abbrev pub Apart : List Zone → Type 0
Apart zones = IsDistinct (zone_ids zones)

pub same-Refines :
    (c d d' : Coordinator) (polls : List (List Zone))
    → d'.supervision ≡ d.supervision
    → Refines c polls d
    → Refines c polls d'
same-Refines c d d' polls e h = record {
  mirrors = rw e h.mirrors;
  monitored = ap (monitor_of c.entry.entry_id) e ∙ h.monitored;
}

pub polled-Refines :
    (c d d' : Coordinator) (polls : List (List Zone)) (r : Result Gc3Data)
    → Outcome d r d'
    → d.entry ≡ c.entry
    → All Apart (zones_polled r polls)
    → (All Apart polls → Refines c polls d)
    → Refines c (zones_polled r polls) d'
polled-Refines c d d' polls (ok snapshot) h same apart k =
    let before = k apart.1 in
    let id = c.entry.entry_id in
    let updated : d'.supervision ≡ update_supervision_issues id snapshot.zones d.supervision =
      h.1
      ∙ ap (λ (e : ConfigEntry). update_supervision_issues e.entry_id snapshot.zones d.supervision)
          same in
    record {
      mirrors = rw updated (update-Mirrors id snapshot.zones d.supervision before.mirrors);
      monitored =
          ap (monitor_of id) updated
          ∙ update_refines id snapshot.zones d.supervision before.mirrors apart.0
          ∙ ap (watch snapshot.zones) before.monitored;
    }
polled-Refines c d d' polls (raised (gc3 e)) h same apart k = absurd h
polled-Refines c d d' polls (raised _) h same apart k = same-Refines c d d' polls h.1 (k apart)

Life-entry :
    {env : Env} {c d : Coordinator} {polls : List (List Zone)}
    → Life env c polls d
    → d.entry ≡ c.entry
Life-entry born = refl
Life-entry {env} (polled {d} life) = update_data-entry env d ∙ Life-entry life
Life-entry (stored life s) = Life-entry life
Life-entry {env} (served {d} life cmd) = perform-entry env cmd d ∙ Life-entry life

Life-Refines :
    {env : Env} {c d : Coordinator} {polls : List (List Zone)}
    → Mirrors c.entry.entry_id c.supervision
    → Life env c polls d
    → All Apart polls
    → Refines c polls d
Life-Refines m born apart = record { mirrors = m; monitored = refl }
Life-Refines {env} {c} m (polled {polls} {d} life) apart =
    polled-Refines c d (update_data env d).1 polls (update_data env d).0 (update_data-Outcome env d)
      (Life-entry life) apart (Life-Refines m life)
Life-Refines {c} m (stored {polls} {d} life s) apart =
    same-Refines c d (record d { last = some s }) polls refl (Life-Refines m life apart)
Life-Refines {env} {c} m (served {polls} {d} life cmd) apart =
    same-Refines c d (perform env cmd d).1 polls
      (Finished-supervision (is_night cmd) d (perform env cmd d).0 (perform env cmd d).1
        (perform-Finished env cmd d))
      (Life-Refines m life apart)

-- Over any sequence of polls, stored snapshots and service calls, with any answers of the panel: where
-- at first the issue of each zone stands exactly while the zone is reported, and no poll that succeeds
-- lists an id twice, the counters and the issues that stand are at the end those of the monitor that
-- started with the first ones and watched the polls that succeeded.
pub Life_refines :
    {env : Env} {c d : Coordinator} {polls : List (List Zone)}
    → Life env c polls d
    → Mirrors c.entry.entry_id c.supervision
    → All (λ zones. IsDistinct (zone_ids zones)) polls
    → monitor_of c.entry.entry_id d.supervision
      ≡ watch_all (monitor_of c.entry.entry_id c.supervision) polls
Life_refines life m apart = (Life-Refines m life apart).monitored
