-- ===== src/Witnesses/Fixtures.antt =====
-- A panel with three zones, a client of it, and a coordinator.
use homeassistant_2gig_gc.Prelude.{
  ℕ, Bool, true, false, none, List, [], ◌∷◌, Text, codes, pos, ends_with, if◌then◌else◌,
}
use homeassistant_2gig_gc.Python.Json.{
  Items, Fields, Json, null, bool, int, str, arr, obj, nil, cons, end, field,
}
use homeassistant_2gig_gc.Pygc3.Client.{Env, Reply, response, got, Gc3Client, World}
use homeassistant_2gig_gc.Pygc3.Models.{Zone, PanelStatus}
use homeassistant_2gig_gc.Gc3.Const.{ConfigEntry}
use homeassistant_2gig_gc.Gc3.Coordinator.{Coordinator, Supervision}

abbrev zone_json : Text → Text → Bool → Bool → Json
zone_json id name opened lost = obj (
    field (codes "id") (str id) (
      field (codes "voiceDescriptor") (str name) (
        field (codes "status")
          (obj (
            field (codes "open") (bool opened) (field (codes "lossOfSupervision") (bool lost) end)))
          end)))

abbrev pub zone_entries : Items
zone_entries = cons (zone_json (codes "0") (codes "Console") false false) (
    cons (zone_json (codes "1") (codes "Front Door") true false)
      (cons (zone_json (codes "2") (codes "Hall Motion") true true) nil))

abbrev pub zones_json : Json
zones_json = arr zone_entries

abbrev pub fields_of : Text → Bool → Fields
fields_of state stay =
    field (codes "armState") (str state) (field (codes "isArmedStay") (bool stay) end)

-- What `armed_env` says of its state.
abbrev pub status_fields : Fields
status_fields = fields_of (codes "ARMED") true

abbrev pub status_json : Text → Bool → Json
status_json state stay = obj (fields_of state stay)

abbrev pub answer : ℕ → Json → Reply
answer status body = response (record { status = status; json = got body; text = got [] })

-- A panel that reports one state, and accepts every command.
abbrev pub env_of : Text → Bool → Env
env_of state stay = record {
  repr = λ v. [];
  panel = λ before r.
      if ends_with r.url (codes "/zones")
      then answer 200 zones_json
      else answer 200 (status_json state stay);
}

abbrev pub armed_env : Env
armed_env = env_of (codes "ARMED") true

abbrev pub idle_env : Env
idle_env = env_of (codes "DISARMED") false

-- A panel that refuses every request.
abbrev pub closed_env : Env
closed_env = record { repr = λ v. []; panel = λ before r. answer 403 (str (codes "no")) }

abbrev pub some_client : Gc3Client
some_client = record {
  base = codes "https://p:3000";
  api_key = str (codes "k");
  pairing_key = str (codes "p");
  partition = int (pos 1);
  timeout = int (pos 8);
  ssl = false;
  session = none;
  owns_session = true;
}

-- Session 0 is another's.
abbrev pub some_world : World
some_world = record { client = some_client; next_session = 1; open_sessions = 0 ∷ []; sent = [] }

abbrev pub some_entry : ConfigEntry
some_entry = record {
  entry_id = codes "e";
  stored = (codes "host", str (codes "p")) ∷ (codes "disarm_pin", str (codes "1234")) ∷ [];
  options = (codes "night_no_entry_delay", bool true) ∷ [];
}

abbrev pub no_supervision : Supervision
no_supervision = record { misses = []; reported = []; issues = [] }

abbrev pub some_coordinator : Coordinator
some_coordinator = record {
  entry = some_entry;
  world = some_world;
  last = none;
  armed_night = false;
  supervision = no_supervision;
  refresh_requests = 0;
  poll_interval = int (pos 10);
}

abbrev pub a_status : PanelStatus
a_status = record { arm_state = codes "armed"; is_armed_stay = true; raw = null }

abbrev pub a_zone : Text → Text → Bool → Bool → Zone
a_zone id name opened lost = record {
  id = id;
  name = str name;
  serial = none;
  equipment_code = null;
  connection_type = null;
  partition = null;
  zone_physical_type = null;
  zone_alarm_type = null;
  supervision_enabled = true;
  status = record {
    is_open = opened;
    in_alarm = false;
    battery_low = false;
    tampered = false;
    bypassed = false;
    bypassable = false;
    loss_of_supervision = lost;
    not_ready = false;
    crossed = false;
    raw = null;
  };
  raw = null;
}

abbrev pub front_door : Zone
front_door = a_zone (codes "1") (codes "Front Door") true false

abbrev pub hall_motion : Zone
hall_motion = a_zone (codes "2") (codes "Hall Motion") true true

abbrev pub two_zones : List Zone
two_zones = front_door ∷ hall_motion ∷ []
