-- ===== src/Gc3/AlarmControlPanel.antt =====
-- custom_components/gc3/alarm_control_panel.py: the entity that arms and disarms the panel.
pub mod Commands
pub mod Wire
pub mod Night
use homeassistant_2gig_gc.Prelude.{
  suc, ◌+◌, Bool, true, false, not, Option, none, some, Text, codes, [], if◌then◌else◌,
}
use homeassistant_2gig_gc.Python.Effects.{
  Result, ok, raised, Exec, raise, Error, gc3, message, command_failed, no_disarm_pin,
}
use homeassistant_2gig_gc.Python.Json.{Json, null, bool, str, truthy, or_value}
use homeassistant_2gig_gc.Pygc3.Client
use homeassistant_2gig_gc.Pygc3.Client.{World, Env, ArmFlags}
use homeassistant_2gig_gc.Gc3.Const.{
  ConfigEntry, get_default, conf_disarm_pin, conf_no_entry_delay, conf_night_no_entry_delay,
  conf_bypass_not_ready,
}
use homeassistant_2gig_gc.Gc3.Coordinator.{
  Coordinator, AlarmState, alarm_state, on_client, note_arm,
}

-- `_attr_code_format` is set: the PIN has to be asked for at disarm time.
unfoldable pub asks_for_code : ConfigEntry → Bool
asks_for_code entry = not (truthy (get_default entry.stored conf_disarm_pin null))

-- `_arm_options`, with the `stay` that each arm method passes beside it.
unfoldable pub arm_options : Coordinator → Json → Text → ArmFlags
arm_options c stay entry_delay_option = record {
  stay = stay;
  no_entry_delay = get_default c.entry.options entry_delay_option (bool false);
  no_exit_delay = bool true;
  bypass_not_ready = get_default c.entry.options conf_bypass_not_ready (bool false);
  silent = bool false;
}

-- `coordinator.async_request_refresh`: Home Assistant polls when it sees fit.
abbrev pub request_refresh : Coordinator → Coordinator
request_refresh c = record c { refresh_requests = c.refresh_requests + 1 }

abbrev pub finish_command : Bool → Result Json → Coordinator → Result (Unit {0}) × Coordinator
finish_command night (ok v) c = (ok tt, request_refresh (note_arm night c))
finish_command night (raised (gc3 e)) c = (raised (command_failed (message e)), c)
finish_command night (raised e) c = (raised e, c)

-- `_command`
unfoldable pub command : Exec World Json → Bool → Exec Coordinator (Unit {0})
unfolding note_arm
command action night c = let (r, c') = on_client action c in finish_command night r c'

-- `code or self.coordinator.config_entry.data.get(CONF_DISARM_PIN, "")`
abbrev pub pin_of : Json → Coordinator → Json
pin_of code c = or_value code (get_default c.entry.stored conf_disarm_pin (str []))

module _ (env : Env) where
  -- `async_alarm_disarm`; the code is `None` or a text
  unfoldable pub async_alarm_disarm : Json → Exec Coordinator (Unit {0})
  async_alarm_disarm code c =
      if truthy (pin_of code c)
      then command (Client.disarm env (pin_of code c) null) false c
      else raise no_disarm_pin c

  -- `async_alarm_arm_home`
  unfoldable pub async_alarm_arm_home : Exec Coordinator (Unit {0})
  async_alarm_arm_home c =
      command (Client.arm env (arm_options c (bool true) conf_no_entry_delay) null) false c

  -- `async_alarm_arm_away`
  unfoldable pub async_alarm_arm_away : Exec Coordinator (Unit {0})
  async_alarm_arm_away c =
      command (Client.arm env (arm_options c (bool false) conf_no_entry_delay) null) false c

  -- `async_alarm_arm_night`
  unfoldable pub async_alarm_arm_night : Exec Coordinator (Unit {0})
  async_alarm_arm_night c =
      command (Client.arm env (arm_options c (bool true) conf_night_no_entry_delay) null) true c
