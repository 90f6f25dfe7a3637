-- ===== src/Gc3/AlarmControlPanel/Commands.antt =====
-- What the four commands of the panel entity do: to the coordinator, and on the wire.
use homeassistant_2gig_gc.Prelude.{◌+◌, ◌≡◌, refl, Bool, true, false, text_Eq, Bool-cases, inl, inr}
use homeassistant_2gig_gc.Python.Effects.{
  Result, ok, raised, Exec, gc3, command_failed, no_disarm_pin,
}
use homeassistant_2gig_gc.Python.Json.{Json, null, bool, truthy}
use homeassistant_2gig_gc.Pygc3.Client
use homeassistant_2gig_gc.Pygc3.Client.{World, Env, Request, ArmFlags}
use homeassistant_2gig_gc.Pygc3.Client.Failures.{IsGc3, request-IsGc3}
use homeassistant_2gig_gc.Gc3.Const.{conf_no_entry_delay, conf_night_no_entry_delay}
use homeassistant_2gig_gc.Gc3.Coordinator.{Coordinator, note_arm}
use homeassistant_2gig_gc.Gc3.AlarmControlPanel.{
  command, pin_of, arm_options, finish_command, async_alarm_disarm, async_alarm_arm_home,
  async_alarm_arm_away, async_alarm_arm_night,
}

-- A call of a service of the entity; a disarm carries the code that the user typed, or `None`.
pub data Command : Type 0 where
  arm_home arm_away arm_night : Command
  disarm : Json → Command

unfoldable pub perform : Env → Command → Exec Coordinator (Unit {0})
unfolding async_alarm_arm_home async_alarm_arm_away async_alarm_arm_night async_alarm_disarm
perform env arm_home = async_alarm_arm_home env
perform env arm_away = async_alarm_arm_away env
perform env arm_night = async_alarm_arm_night env
perform env (disarm code) = async_alarm_disarm env code

abbrev pub is_night : Command → Bool
is_night arm_night = true
is_night cmd = false

-- The flag and the refreshes of a command that failed are as before; the snapshot and the
-- supervision always are.
abbrev Unmoved : Coordinator → Coordinator → Type 0
Unmoved c c' =
    (c'.armed_night ≡ c.armed_night)
    × (c'.refresh_requests ≡ c.refresh_requests)
    × (c'.last ≡ c.last)
    × (c'.supervision ≡ c.supervision)

-- What a command leaves behind, by how it ended; it raises two exceptions and no other.
abbrev pub Finished : Bool → Coordinator → Result (Unit {0}) → Coordinator → Type 0
Finished night c (ok u) c' =
    (c'.armed_night ≡ night)
    × (c'.refresh_requests ≡ c.refresh_requests + 1)
    × (c'.last ≡ c.last)
    × (c'.supervision ≡ c.supervision)
Finished night c (raised (command_failed m)) c' = Unmoved c c'
Finished night c (raised no_disarm_pin) c' = Unmoved c c'
Finished night c (raised e) c' = ⊥

finish-Finished :
    (night : Bool) (c : Coordinator) (w : World) (r : Result Json)
    → IsGc3 r
    → let (r', c') = finish_command night r (record c { world = w }) in Finished night c r' c'
unfolding note_arm
finish-Finished night c w (ok v) h = (refl, refl, refl, refl)
finish-Finished night c w (raised (gc3 e)) h = (refl, refl, refl, refl)
finish-Finished night c w (raised _) h = elim h [ ]

command-Finished :
    (action : Exec World Json) (night : Bool) (c : Coordinator)
    → IsGc3 (action c.world).0
    → Finished night c (command action night c).0 (command action night c).1
unfolding command
command-Finished action night c h = let (r, w) = action c.world in finish-Finished night c w r h

arm-IsGc3 :
    (env : Env) (flags : ArmFlags) (part : Json) (w : World) → IsGc3 (Client.arm env flags part w).0
unfolding Client.arm
arm-IsGc3 env flags part w = request-IsGc3 env _ _ _ _ w

disarm-IsGc3 : (env : Env) (pin part : Json) (w : World) → IsGc3 (Client.disarm env pin part w).0
unfolding Client.disarm
disarm-IsGc3 env pin part w = request-IsGc3 env _ _ _ _ w

pub perform-Finished :
    (env : Env) (cmd : Command) (c : Coordinator)
    → Finished (is_night cmd) c (perform env cmd c).0 (perform env cmd c).1
unfolding perform
perform-Finished env arm_home c =
    command-Finished _ false c
      (arm-IsGc3 env (arm_options c (bool true) conf_no_entry_delay) null c.world)
perform-Finished env arm_away c =
    command-Finished _ false c
      (arm-IsGc3 env (arm_options c (bool false) conf_no_entry_delay) null c.world)
perform-Finished env arm_night c =
    command-Finished _ true c
      (arm-IsGc3 env (arm_options c (bool true) conf_night_no_entry_delay) null c.world)
perform-Finished env (disarm code) c = elim (Bool-cases (truthy (pin_of code c))) [
  | inl given ↦
      rw given (command-Finished _ false c (disarm-IsGc3 env (pin_of code c) null c.world))
  | inr missing ↦ rw missing (refl, refl, refl, refl)
]
