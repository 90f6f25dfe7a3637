-- ===== src/Gc3/Coordinator/StateMap.antt =====
-- `map_alarm_state` of custom_components/gc3/coordinator.py, with the panel states of Home Assistant
-- that it returns.
use homeassistant_2gig_gc.Prelude.{Bool, not, List, codes, text_Eq, ◌==◌, any, is_in, if◌then◌else◌}
use homeassistant_2gig_gc.Pygc3.Models.{PanelStatus, Zone}

pub data AlarmState : Type 0 where
  triggered armed_away armed_night armed_home arming disarmed : AlarmState

-- `any(z.status.in_alarm for z in zones)`
abbrev pub any_in_alarm : List Zone → Bool
any_in_alarm = any (λ z. z.status.in_alarm)

unfoldable pub map_alarm_state : PanelStatus → List Zone → Bool → AlarmState
map_alarm_state status zones night =
    if any_in_alarm zones
    then triggered
    else if status.arm_state == codes "armed"
    then if not status.is_armed_stay then armed_away else if night then armed_night else armed_home
    else if status.arm_state == codes "arming"
    then arming
    else if is_in (codes "alarm") status.arm_state
    then triggered
    else disarmed
