-- ===== src/Gc3/Coordinator.antt =====
-- custom_components/gc3/coordinator.py: the coordinator's state and methods. Home Assistant's base
-- class writes `last` (`self.data`), the snapshot of the last good poll; the code here reads it.
mod StateMap
mod Tracking
pub mod States
pub mod Streaks
pub mod Outages
pub mod Registry
pub mod Polling
pub mod Monitor
pub mod Reloads
pub mod Snapshots
pub mod Reordering
unfoldable pub use StateMap.*
unfoldable pub use Tracking.*
use mathlib.Core.List.{foldl}
use homeassistant_2gig_gc.Prelude.{
  ℕ, Bool, true, false, not, ◌||◌, Option, none, some, List, [], ◌∷◌, Text, codes, text_Eq, ◌==◌,
  Dict, put, contains, if◌then◌else◌,
}
use homeassistant_2gig_gc.Python.Effects.{
  Result, ok, raised, Exec, ◌>>=◌, ◌>>◌, Error, gc3, connection_error, auth_error, response_error,
  config_entry_auth_failed, update_failed,
}
use homeassistant_2gig_gc.Python.Json.{Json}
use homeassistant_2gig_gc.Pygc3.Models.{PanelStatus, Zone}
use homeassistant_2gig_gc.Pygc3.Client
use homeassistant_2gig_gc.Pygc3.Client.{World, Env}
use homeassistant_2gig_gc.Gc3.Const.{ConfigEntry}

pub record Gc3Data : Type 0 where
  pub status : PanelStatus
  pub zones : List Zone
  pub by_id : Dict Text Zone

-- `{z.id: z for z in zones}`
unfoldable pub index_zones : Dict Text Zone → List Zone → Dict Text Zone
index_zones d [] = d
index_zones d (z ∷ zs) = index_zones (put d z.id z) zs

-- `GC3Data(status=…, zones=…)` with its `__post_init__`
unfoldable pub new_data : PanelStatus → List Zone → Gc3Data
unfolding index_zones
new_data status zones = record { status = status; zones = zones; by_id = index_zones [] zones }

pub record Coordinator : Type 0 where
  pub entry : ConfigEntry
  pub world : World
  pub last : Option Gc3Data
  pub armed_night : Bool
  pub supervision : Supervision
  pub refresh_requests : ℕ
  pub poll_interval : Json

-- `GC3Coordinator.__init__`
unfoldable pub new_coordinator : ConfigEntry → World → Json → Coordinator
new_coordinator entry world poll_interval = record {
  entry = entry;
  world = world;
  last = none;
  armed_night = false;
  supervision = record { misses = []; reported = []; issues = [] };
  refresh_requests = 0;
  poll_interval = poll_interval;
}

-- A call of the client's method.
abbrev pub on_client {ℓ} :
    {A : Type ℓ} → (World → Result A × World) → Coordinator → Result A × Coordinator
on_client m c = let (r, w) = m c.world in (r, record c { world = w })

-- The `except` clauses of `_async_update_data`.
abbrev pub convert_error : Error → Error
convert_error (gc3 (auth_error m)) = config_entry_auth_failed m
convert_error (gc3 (connection_error m)) = update_failed m
convert_error (gc3 (response_error m status)) = update_failed m
convert_error e = e

abbrev pub handle_fetch {ℓ} : {A : Type ℓ} → Result A → Result A
handle_fetch (ok a) = ok a
handle_fetch (raised e) = raised (convert_error e)

-- `status.arm_state not in ("armed", "arming")`
abbrev pub is_idle : PanelStatus → Bool
is_idle s = not (contains (codes "armed" ∷ codes "arming" ∷ []) s.arm_state)

-- What `_async_update_data` does with what it fetched.
unfoldable pub absorb : PanelStatus → List Zone → Coordinator → Coordinator
unfolding update_supervision_issues
absorb status zones c = record c {
  armed_night = if is_idle status then false else c.armed_night;
  supervision = update_supervision_issues c.entry.entry_id zones c.supervision;
}

-- The body of the `try` in `_async_update_data`.
unfoldable pub fetch : Env → Exec World (PanelStatus × List Zone)
fetch env = do
  status ← Client.status env
  zones ← Client.zones env false
  λ w. (ok (status, zones), w)

abbrev pub store : Result (PanelStatus × List Zone) → Coordinator → Result Gc3Data × Coordinator
store (ok (status, zones)) c = (ok (new_data status zones), absorb status zones c)
store (raised e) c = (raised (convert_error e), c)

-- `_async_update_data`
unfoldable pub update_data : Env → Exec Coordinator Gc3Data
unfolding fetch absorb new_data
update_data env c = let (r, c') = on_client (fetch env) c in store r c'

-- `note_arm`
unfoldable pub note_arm : Bool → Coordinator → Coordinator
note_arm night c = record c { armed_night = night }

-- `alarm_state`
unfoldable pub alarm_state : Coordinator → Option AlarmState
unfolding map_alarm_state
alarm_state c = elim c.last [
  | none ↦ none
  | some d ↦ some (map_alarm_state d.status d.zones c.armed_night)
]
