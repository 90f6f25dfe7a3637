-- ===== src/Gc3/Coordinator/States.antt =====
-- When `map_alarm_state` gives which state.
use homeassistant_2gig_gc.Prelude.{
  ◌≡◌, refl, ◌≢◌, ap, ◌↔◌, Bool, true, false, not, ◌||◌, contains, if◌then◌else◌, List, Text, codes,
  text_Eq, ◌==◌, eq_of_==, text_eq, text_eq_iff, is_in, arith,
}
use homeassistant_2gig_gc.Pygc3.Models.{PanelStatus, Zone}
use homeassistant_2gig_gc.Gc3.Coordinator.{
  AlarmState, triggered, armed_away, armed_night, armed_home, arming, disarmed, any_in_alarm,
  map_alarm_state, is_idle,
}

armed_not_alarm : (t : Text) → (t == codes "armed") ≡ true → is_in (codes "alarm") t ≡ false
unfolding is_in
armed_not_alarm t h = ap (is_in (codes "alarm")) (eq_of_== t (codes "armed") h)

arming_not_alarm : (t : Text) → (t == codes "arming") ≡ true → is_in (codes "alarm") t ≡ false
unfolding is_in
arming_not_alarm t h = ap (is_in (codes "alarm")) (eq_of_== t (codes "arming") h)

module _ (status : PanelStatus) (zones : List Zone) (night : Bool) where
  -- The state is `triggered` exactly when a zone is in alarm or the panel's state speaks of an alarm.
  pub map_alarm_state-triggered :
      (map_alarm_state status zones night ≡ triggered)
      ↔ ((any_in_alarm zones || is_in (codes "alarm") status.arm_state) ≡ true)
  unfolding map_alarm_state
  map_alarm_state-triggered =
      ground (arith, armed_not_alarm status.arm_state, arming_not_alarm status.arm_state)

  -- The state is `armed_night` exactly when the panel is armed in stay mode, no zone is in alarm and
  -- the night flag is set.
  pub map_alarm_state-armed_night : (map_alarm_state status zones night ≡ armed_night) ↔ (
      (any_in_alarm zones ≡ false)
      × (status.arm_state ≡ codes "armed")
      × (status.is_armed_stay ≡ true)
      × (night ≡ true))
  unfolding map_alarm_state
  map_alarm_state-armed_night = ground (arith, text_eq_iff status.arm_state (codes "armed"))

  -- The state is `disarmed` exactly when no zone is in alarm and the panel's state is neither `armed`
  -- nor `arming` and does not speak of an alarm.
  pub map_alarm_state-disarmed : (map_alarm_state status zones night ≡ disarmed) ↔ (
      (any_in_alarm zones ≡ false)
      × ((status.arm_state == codes "armed") ≡ false)
      × ((status.arm_state == codes "arming") ≡ false)
      × (is_in (codes "alarm") status.arm_state ≡ false))
  unfolding map_alarm_state
  map_alarm_state-disarmed = ground arith

-- What a state tells: by whether a sensor is in alarm, the panel's word for its state, its stay flag, and
-- the night flag before the poll.
abbrev pub Tells : Bool → Text → Bool → Bool → AlarmState → Type 0
Tells alarm word stay night triggered = (alarm || is_in (codes "alarm") word) ≡ true
Tells alarm word stay night armed_away = (alarm ≡ false) × (word ≡ codes "armed") × (stay ≡ false)
Tells alarm word stay night armed_home =
    (alarm ≡ false) × (word ≡ codes "armed") × (stay ≡ true) × (night ≡ false)
Tells alarm word stay night armed_night =
    (alarm ≡ false) × (word ≡ codes "armed") × (stay ≡ true) × (night ≡ true)
Tells alarm word stay night arming = (alarm ≡ false) × (word ≡ codes "arming")
Tells alarm word stay night disarmed =
    (alarm ≡ false)
    × (word ≢ codes "armed")
    × (word ≢ codes "arming")
    × (is_in (codes "alarm") word ≡ false)

split_on : (b : Bool) {P : Type 0} → (b ≡ true → P) → (b ≡ false → P) → P
split_on true yes_case no_case = yes_case refl
split_on false yes_case no_case = no_case refl

armed-Tells :
    (stay night : Bool)
    → (word : Text) → word ≡ codes "armed"
    → Tells false word stay night
        (if not stay then armed_away else if night then armed_night else armed_home)
armed-Tells false night word e = (refl, e, refl)
armed-Tells true true word e = (refl, e, refl, refl)
armed-Tells true false word e = (refl, e, refl, refl)

other_word : (word t : Text) → (word == t) ≡ false → word ≢ t
other_word word t e same = ground (arith, text_eq_iff word t)

-- An armed panel is not idle.
kept-armed :
    (status : PanelStatus) (night : Bool)
    → status.arm_state ≡ codes "armed"
    → (if is_idle status then false else night) ≡ night
unfolding contains text_eq
kept-armed status night e = rw e refl

-- On the snapshot of a poll the state tells what the panel says.
pub map_alarm_state-Tells :
    (status : PanelStatus) (zones : List Zone) (night : Bool)
    → Tells
        (any_in_alarm zones)
        status.arm_state
        status.is_armed_stay
        night
        (map_alarm_state status zones (if is_idle status then false else night))
unfolding map_alarm_state
map_alarm_state-Tells status zones night =
    let word = status.arm_state in
    split_on (any_in_alarm zones) (λ a. rw a refl)
      λ a.
        split_on (word == codes "armed")
          (λ e.
            let armed = eq_of_== word (codes "armed") e in
            rw (a, e, kept-armed status night armed)
              (armed-Tells status.is_armed_stay night word armed))
          λ e.
            split_on (word == codes "arming")
              (λ g. rw (a, e, g) (refl, eq_of_== word (codes "arming") g))
              λ g.
                split_on (is_in (codes "alarm") word) (λ k. rw (a, e, g, k) k)
                  λ k. rw (a, e, g, k) (refl, other_word word _ e, other_word word _ g, k)
