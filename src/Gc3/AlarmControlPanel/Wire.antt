-- ===== src/Gc3/AlarmControlPanel/Wire.antt =====
-- What the commands of the panel entity send to the panel.
use homeassistant_2gig_gc.Prelude.{
  ◌≡◌, refl, ap, ◌∙◌, ◌⊎◌, text_eq, Dict, arith, Bool, true, false, [], ◌∷◌, ◌++◌, Text, codes,
  text_Eq, get, Option, none, some, Bool-cases, inl, inr,
}
use homeassistant_2gig_gc.Python.Effects.{Result, ok, raised, no_disarm_pin}
use homeassistant_2gig_gc.Python.Json.{Json, null, bool, truthy}
use homeassistant_2gig_gc.Pygc3.Client
use homeassistant_2gig_gc.Pygc3.Client.{Env, World, Request, request, request_of, ensure_session}
use homeassistant_2gig_gc.Gc3.Const.{
  get_default, conf_no_entry_delay, conf_night_no_entry_delay, conf_bypass_not_ready,
}
use homeassistant_2gig_gc.Gc3.Coordinator.{Coordinator, note_arm, on_client}
use homeassistant_2gig_gc.Gc3.AlarmControlPanel.{pin_of, command, finish_command, arm_options}
use homeassistant_2gig_gc.Gc3.AlarmControlPanel.Commands.{
  Command, arm_home, arm_away, arm_night, disarm, perform,
}

-- One field of the JSON body of a request.
abbrev pub body_field : Request → Text → Option Json
body_field r key = elim r.json [ none ↦ none | some body ↦ get body key ]

-- The body of an arm request: in which mode, with which entry delay, and never an exit delay.
pub record IsArming (c : Coordinator) (stay : Bool) (entry_delay : Text) (r : Request)
    : Type 0 where
  pub post : r.method ≡ codes "POST"
  pub mode : body_field r (codes "armStay") ≡ some (bool stay)
  pub no_exit_delay : body_field r (codes "noExitDelay") ≡ some (bool true)
  pub no_entry_delay :
      body_field r (codes "noEntryDelay")
      ≡ some (get_default c.entry.options entry_delay (bool false))
  pub bypass :
      body_field r (codes "bypassNotReadyZones")
      ≡ some (get_default c.entry.options conf_bypass_not_ready (bool false))
  pub no_pin : body_field r (codes "userPIN") ≡ none

-- From `c` to `c'` exactly one request was sent, and it meets `P`.
abbrev pub SentOne : (Request → Type 0) → Coordinator → Coordinator → Type 0
SentOne P c c' = (r : Request) × (c'.world.sent ≡ c.world.sent ++ r ∷ []) × P r

abbrev pub Sends : Env → Command → Coordinator → Type 0
Sends env arm_home c = SentOne (IsArming c true conf_no_entry_delay) c (perform env arm_home c).1
Sends env arm_away c = SentOne (IsArming c false conf_no_entry_delay) c (perform env arm_away c).1
Sends env arm_night c =
    SentOne (IsArming c true conf_night_no_entry_delay) c (perform env arm_night c).1
Sends env (disarm code) c =
    ((truthy (pin_of code c) ≡ true)
      × SentOne (λ r. body_field r (codes "userPIN") ≡ some (pin_of code c)) c
          (perform env (disarm code) c).1)
    ⊎ ((truthy (pin_of code c) ≡ false) × (perform env (disarm code) c ≡ (raised no_disarm_pin, c)))

finish-world :
    (night : Bool) (r : Result Json) (c : Coordinator)
    → (finish_command night r c).1.world ≡ c.world
unfolding note_arm
finish-world night (ok v) c = refl
finish-world night (raised e) c = ground arith

ensure_session-sent : (w : World) → (ensure_session w).sent ≡ w.sent
unfolding ensure_session
ensure_session-sent w = ground arith

-- A command whose action is one request sends that request.
command-sent :
    (env : Env) (path : Text) (body params : Option (Dict Text Json)) (night : Bool)
    (c : Coordinator)
    → (command (request env (codes "POST") path body params) night c).1.world.sent
      ≡ c.world.sent
        ++ request_of (ensure_session c.world).client (codes "POST") path body params ∷ []
unfolding command request
command-sent env path body params night c =
    let action = request env (codes "POST") path body params in
    let (r, c') = on_client action c in
    let asked = request_of (ensure_session c.world).client (codes "POST") path body params in
    ap (λ w. w.sent) (finish-world night r c')
    ∙ ap (λ l. l ++ asked ∷ []) (ensure_session-sent c.world)

arm_sent :
    (env : Env) (c : Coordinator) (stay : Bool) (entry_delay : Text) (night : Bool)
    → SentOne
        (IsArming c stay entry_delay)
        c
        (command (Client.arm env (arm_options c (bool stay) entry_delay) null) night c).1
unfolding Client.arm Client.arm_body arm_options get text_eq request request_of command
arm_sent env c stay entry_delay night = (
  _,
  command-sent env (codes "/api/v1/actions/panel/arm") _ _ night c,
  record {
    post = refl;
    mode = refl;
    no_exit_delay = refl;
    no_entry_delay = refl;
    bypass = refl;
    no_pin = refl;
  },
)

disarm_sent :
    (env : Env) (c : Coordinator) (pin : Json)
    → SentOne
        (λ r. body_field r (codes "userPIN") ≡ some pin)
        c
        (command (Client.disarm env pin null) false c).1
unfolding Client.disarm Client.disarm_body get text_eq request request_of command
disarm_sent env c pin =
    (_, command-sent env (codes "/api/v1/actions/panel/disarm") _ _ false c, refl)

-- Every arm command sends exactly one request: it has no exit delay, the entry delay of its mode's
-- option, and carries no PIN. A disarm with a code or a stored PIN sends exactly one request, which
-- carries it; with neither it raises `ServiceValidationError`, sends nothing and changes nothing.
pub perform-Sends : (env : Env) (cmd : Command) (c : Coordinator) → Sends env cmd c
unfolding perform
perform-Sends env arm_home c = arm_sent env c true conf_no_entry_delay false
perform-Sends env arm_away c = arm_sent env c false conf_no_entry_delay false
perform-Sends env arm_night c = arm_sent env c true conf_night_no_entry_delay true
perform-Sends env (disarm code) c = elim (Bool-cases (truthy (pin_of code c))) [
  | inl given ↦ inl (given, rw given (disarm_sent env c (pin_of code c)))
  | inr missing ↦ inr (missing, rw missing refl)
]
