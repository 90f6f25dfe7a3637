-- ===== src/Gc3/Interleaving/Races.antt =====
-- Service calls that come between the two requests of a poll.
use homeassistant_2gig_gc.Prelude.{
  ◌≡◌, ◌≢◌, refl, sym, ap, ◌∙◌, Bool, true, false, ◌&&◌, if◌then◌else◌, some, List, All, IsDistinct,
  text_Eq,
}
use homeassistant_2gig_gc.Python.Effects.{
  Result, ok, raised, Ensures, ok-injective, gc3, command_failed, no_disarm_pin,
}
use homeassistant_2gig_gc.Pygc3.Models.{PanelStatus, Zone}
use homeassistant_2gig_gc.Pygc3.Client
use homeassistant_2gig_gc.Pygc3.Client.{Env}
use homeassistant_2gig_gc.Pygc3.Client.Listing.{IsSensor, Ensures-zones}
use homeassistant_2gig_gc.Gc3.Coordinator.{
  Coordinator, Gc3Data, armed_night, alarm_state, is_idle, zone_ids, store, absorb, new_data,
}
use homeassistant_2gig_gc.Gc3.Coordinator.Registry.{Mirrors}
use homeassistant_2gig_gc.Gc3.Coordinator.Polling.{Outcome, store-Outcome}
use homeassistant_2gig_gc.Gc3.Coordinator.Monitor.{monitor_of, watch_all}
use homeassistant_2gig_gc.Gc3.AlarmControlPanel.Commands.{
  Finished, is_night, perform, perform-Finished,
}
use homeassistant_2gig_gc.Gc3.AlarmControlPanel.Night.{Watch, Whatever, Watch-stays_off, not_shown}
use homeassistant_2gig_gc.Gc3.Lifetime.{
  zones_polled, Refines, same-Refines, polled-Refines, perform-entry, Finished-supervision,
  store-entry, Apart,
}
use homeassistant_2gig_gc.Gc3.Interleaving.{
  begin_poll, end_poll, with_status, keep_snapshot, Phase, waiting, Run, start, begins, ends,
  serves, succeeded, night_by,
}

with_status-IsSensor :
    (s : PanelStatus) (r : Result (List Zone))
    → Ensures (All IsSensor) r
    → Ensures (λ p. All IsSensor p.1) (with_status s r)
with_status-IsSensor s (ok zones) h = h
with_status-IsSensor s (raised e) h = tt

end_poll-Outcome :
    (env : Env) (s : PanelStatus) (c : Coordinator)
    → Outcome c (end_poll env s c).0 (end_poll env s c).1
unfolding end_poll
end_poll-Outcome env s c =
    let (r, w) = Client.zones env false c.world in
    store-Outcome c w (with_status s r) (with_status-IsSensor s r (Ensures-zones env c.world))

end_poll-entry :
    (env : Env) (s : PanelStatus) (c : Coordinator) → (end_poll env s c).1.entry ≡ c.entry
unfolding end_poll
end_poll-entry env s c =
    let (r, w) = Client.zones env false c.world in
    store-entry (with_status s r) (record c { world = w })

keep_snapshot-entry :
    (r : Result Gc3Data) (c : Coordinator)
    → ((keep_snapshot r c).entry ≡ c.entry) × ((keep_snapshot r c).supervision ≡ c.supervision)
keep_snapshot-entry (ok d) c = (refl, refl)
keep_snapshot-entry (raised e) c = (refl, refl)

begin_poll-entry :
    (env : Env) (c : Coordinator)
    → ((begin_poll env c).1.entry ≡ c.entry) × ((begin_poll env c).1.supervision ≡ c.supervision)
unfolding begin_poll
begin_poll-entry env c = (refl, refl)

module _ {env : Env} {c : Coordinator} where
  Run-entry :
      {polls : List (List Zone)} {phase : Phase} {d : Coordinator}
      → Run env c polls phase d
      → d.entry ≡ c.entry
  Run-entry start = refl
  Run-entry (begins {d} run) = (begin_poll-entry env d).0 ∙ Run-entry run
  Run-entry (ends {s} {d} run) =
      (keep_snapshot-entry (end_poll env s d).0 (end_poll env s d).1).0
      ∙ end_poll-entry env s d
      ∙ Run-entry run
  Run-entry (serves {d} run cmd) = perform-entry env cmd d ∙ Run-entry run

  Run-Refines :
      {polls : List (List Zone)} {phase : Phase} {d : Coordinator}
      → Mirrors c.entry.entry_id c.supervision
      → Run env c polls phase d
      → All Apart polls
      → Refines c polls d
  Run-Refines m start apart = record { mirrors = m; monitored = refl }
  Run-Refines m (begins {polls} {d} run) apart =
      same-Refines c d (begin_poll env d).1 polls (begin_poll-entry env d).1
        (Run-Refines m run apart)
  Run-Refines m (ends {polls} {s} {d} run) apart =
      let (r, d') = end_poll env s d in
      same-Refines c d' (keep_snapshot r d') (zones_polled r polls) (keep_snapshot-entry r d').1 (
        polled-Refines c d d' polls r (end_poll-Outcome env s d) (Run-entry run) apart
          (Run-Refines m run))
  Run-Refines m (serves {polls} {d} run cmd) apart =
      same-Refines c d (perform env cmd d).1 polls
        (Finished-supervision (is_night cmd) d (perform env cmd d).0 (perform env cmd d).1
          (perform-Finished env cmd d))
        (Run-Refines m run apart)

  -- In any order of the requests of polls and of service calls, with any answers of the panel: where at
  -- first the issue of each zone stands exactly while the zone is reported, and no poll that succeeds
  -- lists an id twice, the counters and the issues that stand are at every moment those of the monitor
  -- that started with the first ones and watched the polls that succeeded.
  pub Run_refines :
      {polls : List (List Zone)} {phase : Phase} {d : Coordinator}
      → Run env c polls phase d
      → Mirrors c.entry.entry_id c.supervision
      → All (λ zones. IsDistinct (zone_ids zones)) polls
      → monitor_of c.entry.entry_id d.supervision
        ≡ watch_all (monitor_of c.entry.entry_id c.supervision) polls
  Run_refines run m apart = (Run-Refines m run apart).monitored

stored-status :
    (s : PanelStatus) (r : Result (List Zone)) (c : Coordinator) (d : Gc3Data)
    → (store (with_status s r) c).0 ≡ ok d
    → d.status ≡ s
unfolding new_data absorb
stored-status s (ok zones) c d e = ap (λ (d : Gc3Data). d.status) (sym (ok-injective e))
stored-status s (raised x) c d e = cc

-- The snapshot of a poll has the status that its first request brought.
end_poll-status :
    (env : Env) (s : PanelStatus) (c : Coordinator) (d : Gc3Data)
    → (end_poll env s c).0 ≡ ok d
    → d.status ≡ s
unfolding end_poll
end_poll-status env s c d e =
    let (r, w) = Client.zones env false c.world in stored-status s r (record c { world = w }) d e

ended-flag :
    (s : PanelStatus) (c c' : Coordinator) (r : Result Gc3Data)
    → Outcome c r c'
    → ((d : Gc3Data) → r ≡ ok d → d.status ≡ s)
    → c'.armed_night ≡ (if succeeded r && is_idle s then false else c.armed_night)
ended-flag s c c' (ok d) h same =
    h.0 ∙ ap (λ s. if is_idle s then false else c.armed_night) (same d refl)
ended-flag s c c' (raised (gc3 e)) h same = absurd h
ended-flag s c c' (raised _) h same = h.0

served-flag :
    (night : Bool) (c : Coordinator) (r : Result (Unit {0})) (c' : Coordinator)
    → Finished night c r c'
    → c'.armed_night ≡ (if succeeded r then night else c.armed_night)
served-flag night c (ok u) c' h = h.0
served-flag night c (raised (command_failed m)) c' h = h.0
served-flag night c (raised no_disarm_pin) c' h = h.0
served-flag night c (raised _) c' h = absurd h

keep_snapshot-flag :
    (r : Result Gc3Data) (c : Coordinator) → (keep_snapshot r c).armed_night ≡ c.armed_night
keep_snapshot-flag (ok d) c = refl
keep_snapshot-flag (raised e) c = refl

begin_poll-flag : (env : Env) (c : Coordinator) → (begin_poll env c).1.armed_night ≡ c.armed_night
unfolding begin_poll
begin_poll-flag env c = refl

-- In any order of the requests of polls and of service calls, with any answers of the panel, the night
-- flag is that of the last command that succeeded, unless a poll ended well behind it whose first request,
-- which may have come before the command, found the panel neither armed nor arming.
pub armed_night-by_run :
    {env : Env} {c : Coordinator} {polls : List (List Zone)} {phase : Phase} {d : Coordinator}
    (run : Run env c polls phase d)
    → d.armed_night ≡ night_by run
armed_night-by_run start = refl
armed_night-by_run {env} (begins {d} run) = begin_poll-flag env d ∙ armed_night-by_run run
armed_night-by_run {env} (ends {s} {d} run) =
    let (r, d') = end_poll env s d in
    keep_snapshot-flag r d'
    ∙ ended-flag s d d' r (end_poll-Outcome env s d) (end_poll-status env s d)
    ∙ ap (λ b. if succeeded r && is_idle s then false else b) (armed_night-by_run run)
armed_night-by_run {env} (serves {d} run cmd) =
    let (r, d') = perform env cmd d in
    served-flag (is_night cmd) d r d' (perform-Finished env cmd d)
    ∙ ap (λ b. if succeeded r then is_night cmd else b) (armed_night-by_run run)

ended_idle :
    (s : PanelStatus) (r : Result Gc3Data) (d : Gc3Data) (b : Bool)
    → r ≡ ok d
    → is_idle s ≡ true
    → (if succeeded r && is_idle s then false else b) ≡ false
ended_idle s (ok d') d b e idle = rw idle refl
ended_idle s (raised x) d b e idle = cc

-- Where the first request of a poll found the panel neither armed nor arming, and the poll then ends
-- well, no snapshot shows as `armed_night` until the next command, whichever service calls came between
-- its requests, a night arm that succeeded among them, also where the panel is armed.
pub stale_poll-ends_night :
    {env : Env} {c d e : Coordinator} {polls : List (List Zone)} {s : PanelStatus}
    (snapshot : Gc3Data)
    → Run env c polls (waiting s) d
    → is_idle s ≡ true
    → (end_poll env s d).0 ≡ ok snapshot
    → Watch env Whatever (keep_snapshot (end_poll env s d).0 (end_poll env s d).1) e
    → alarm_state e ≢ some armed_night
stale_poll-ends_night {env} {d} {e} {s} snapshot run idle done w = not_shown e (
    Watch-stays_off env
      (armed_night-by_run (ends run)
        ∙ ended_idle s (end_poll env s d).0 snapshot (night_by run) done idle)
      w)
