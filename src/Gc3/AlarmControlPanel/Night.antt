-- ===== src/Gc3/AlarmControlPanel/Night.antt =====
-- The night mode, which the panel does not know, over commands and polls.
use homeassistant_2gig_gc.Prelude.{
  ◌≡◌, ◌≢◌, refl, ap, ◌∙◌, Bool, true, false, some, codes, text_Eq, text_eq_iff, arith,
  if◌then◌else◌,
}
use homeassistant_2gig_gc.Python.Effects.{Result, ok, raised, gc3}
use homeassistant_2gig_gc.Pygc3.Client.{Env}
use homeassistant_2gig_gc.Gc3.Coordinator.{
  armed_night, armed_home, Coordinator, Gc3Data, update_data, alarm_state, map_alarm_state,
  any_in_alarm, is_idle,
}
use homeassistant_2gig_gc.Gc3.Coordinator.Polling.{Outcome, update_data-Outcome}
use homeassistant_2gig_gc.Gc3.AlarmControlPanel.Commands.{
  Command, perform, is_night, Finished, perform-Finished,
}

-- What Home Assistant does between two commands: it polls, with a result that meets `P`, and it
-- hands a snapshot to the coordinator.
pub data Watch (env : Env) (P : Result Gc3Data → Type 0) (c : Coordinator)
    : Coordinator → Type 0 where
  here : Watch env P c c
  polled :
      {d : Coordinator}
      → Watch env P c d
      → P (update_data env d).0
      → Watch env P c (update_data env d).1
  stored :
      {d : Coordinator}
      → Watch env P c d
      → (s : Gc3Data) → Watch env P c (record d { last = some s })

-- A poll that failed, or found the panel armed or arming.
abbrev pub StaysArmed : Result Gc3Data → Type 0
StaysArmed (ok d) = is_idle d.status ≡ false
StaysArmed (raised e) = Unit

-- Any poll.
abbrev pub Whatever : Result Gc3Data → Type 0
Whatever r = Unit {0}

flag_kept :
    (c c' : Coordinator) (r : Result Gc3Data)
    → StaysArmed r
    → Outcome c r c'
    → c'.armed_night ≡ c.armed_night
flag_kept c c' (ok d) stays h = h.0 ∙ ap (λ b. if b then false else c.armed_night) stays
flag_kept c c' (raised (gc3 e)) stays h = absurd h
flag_kept c c' (raised _) stays h = h.0

Watch-keeps_flag :
    (env : Env) {c c' : Coordinator} → Watch env StaysArmed c c' → c'.armed_night ≡ c.armed_night
Watch-keeps_flag env here = refl
Watch-keeps_flag env (polled {d} w stays) =
    flag_kept d (update_data env d).1 (update_data env d).0 stays (update_data-Outcome env d)
    ∙ Watch-keeps_flag env w
Watch-keeps_flag env (stored w s) = Watch-keeps_flag env w

flag_stays_off :
    (c c' : Coordinator) (r : Result Gc3Data)
    → c.armed_night ≡ false
    → Outcome c r c'
    → c'.armed_night ≡ false
flag_stays_off c c' (ok d) off h = ground arith
flag_stays_off c c' (raised (gc3 e)) off h = absurd h
flag_stays_off c c' (raised _) off h = h.0 ∙ off

pub Watch-stays_off :
    (env : Env) {c c' : Coordinator}
    → c.armed_night ≡ false
    → Watch env Whatever c c'
    → c'.armed_night ≡ false
Watch-stays_off env off here = off
Watch-stays_off env off (polled {d} w u) =
    flag_stays_off d (update_data env d).1 (update_data env d).0 (Watch-stays_off env off w)
      (update_data-Outcome env d)
Watch-stays_off env off (stored w s) = Watch-stays_off env off w

-- The snapshot says that the panel is armed in stay mode, and no zone is in alarm.
pub record IsArmedStay (d : Gc3Data) : Type 0 where
  pub armed : d.status.arm_state ≡ codes "armed"
  pub stay : d.status.is_armed_stay ≡ true
  pub quiet : any_in_alarm d.zones ≡ false

map_of_stay :
    (d : Gc3Data) (night : Bool)
    → IsArmedStay d
    → map_alarm_state d.status d.zones night ≡ (if night then armed_night else armed_home)
unfolding map_alarm_state
map_of_stay d night h = ground (arith, text_eq_iff d.status.arm_state (codes "armed"))

shown :
    (c : Coordinator) (d : Gc3Data)
    → c.last ≡ some d
    → IsArmedStay d
    → alarm_state c ≡ some (if c.armed_night then armed_night else armed_home)
unfolding alarm_state
shown c d e h = ground (arith, map_of_stay d c.armed_night h)

pub not_shown : (c : Coordinator) → c.armed_night ≡ false → alarm_state c ≢ some armed_night
unfolding alarm_state map_alarm_state
not_shown c off e = ground arith

flag_of :
    (cmd : Command) (c c' : Coordinator) (r : Result (Unit {0}))
    → r ≡ ok tt
    → Finished (is_night cmd) c r c'
    → c'.armed_night ≡ is_night cmd
flag_of cmd c c' (ok u) e h = h.0
flag_of cmd c c' (raised _) e h = cc

-- After a command that succeeded, through any polls that fail or find the panel armed or arming, a
-- snapshot of a panel that is armed in stay mode with no zone in alarm shows as `armed_night` if the
-- command was a night arm, and as `armed_home` if it was any other.
pub stay_shows :
    (env : Env) (cmd : Command) (c : Coordinator) {c' : Coordinator} (d : Gc3Data)
    → (perform env cmd c).0 ≡ ok tt
    → Watch env StaysArmed (perform env cmd c).1 c'
    → c'.last ≡ some d
    → IsArmedStay d
    → alarm_state c' ≡ some (if is_night cmd then armed_night else armed_home)
stay_shows env cmd c {c'} d done w e h =
    shown c' d e h
    ∙ ap (λ b. some (if b then armed_night else armed_home))
        (Watch-keeps_flag env w
          ∙ flag_of cmd c (perform env cmd c).1 (perform env cmd c).0 done
              (perform-Finished env cmd c))

pub idle_clears :
    (c c' : Coordinator) (r : Result Gc3Data) (d : Gc3Data)
    → r ≡ ok d
    → is_idle d.status ≡ true
    → Outcome c r c'
    → c'.armed_night ≡ false
idle_clears c c' (ok d') d e idle h = ground arith
idle_clears c c' (raised _) d e idle h = cc

-- Once a poll found the panel neither armed nor arming, no snapshot shows as `armed_night` until the
-- next command, whatever the polls after it find.
pub idle_ends_night :
    (env : Env) (c : Coordinator) (d : Gc3Data) {c' : Coordinator}
    → (update_data env c).0 ≡ ok d
    → is_idle d.status ≡ true
    → Watch env Whatever (update_data env c).1 c'
    → alarm_state c' ≢ some armed_night
idle_ends_night env c d {c'} e idle w = not_shown c' (
    Watch-stays_off env
      (idle_clears c (update_data env c).1 (update_data env c).0 d e idle
        (update_data-Outcome env c))
      w)
