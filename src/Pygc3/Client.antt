-- ===== src/Pygc3/Client.antt =====
-- pygc3/src/pygc3/client.py: the methods of the client. A method acts on a `World`: the client's
-- fields, the aiohttp sessions that are open, and the requests sent so far.
mod Transport
mod Session
mod Exchange
pub mod Failures
pub mod Lifecycle
pub mod Listing
pub use Transport.*
unfoldable pub use Session.*
unfoldable pub use Exchange.*
use homeassistant_2gig_gc.Prelude.{
  Bool, not, Option, none, some, List, [], ◌∷◌, Text, codes, Dict, filter, if◌then◌else◌,
}
use homeassistant_2gig_gc.Python.Effects.{
  Result, ok, raised, bind, map_result, Exec, lift, gets, ◌>>=◌, gc3, response_error,
}
use homeassistant_2gig_gc.Python.Json.{
  Json, null, bool, str, arr, Items, nil, cons, or_value, str_of,
}
use homeassistant_2gig_gc.Pygc3.Models.{
  PanelStatus, panel_status, Zone, zone, is_console, Pairing, pairing,
}

abbrev pub items : Items → List Json
items nil = []
items (cons v vs) = v ∷ items vs

-- `data`, if it is a list
abbrev pub list_of : Json → Result (List Json)
list_of (arr vs) = ok (items vs)
list_of v = raised (gc3 (response_error (codes "zones: expected a JSON array") none))

-- `[z for z in parsed if not z.is_console]`
unfoldable pub without_console : List Zone → Result (List Zone)
unfolding is_console
without_console [] = ok []
without_console (z ∷ zs) =
    bind (is_console z)
      (λ console. bind (without_console zs) (λ rest. ok (if console then rest else z ∷ rest)))

-- The keyword arguments of `arm`, all but `partition`.
pub record ArmFlags : Type 0 where
  pub stay : Json
  pub no_entry_delay : Json
  pub no_exit_delay : Json
  pub bypass_not_ready : Json
  pub silent : Json

-- The body of an arm request.
unfoldable pub arm_body : Json → ArmFlags → Dict Text Json
arm_body part flags =
    (codes "partition", part)
    ∷ (codes "armStay", flags.stay)
    ∷ (codes "noExitDelay", flags.no_exit_delay)
    ∷ (codes "noEntryDelay", flags.no_entry_delay)
    ∷ (codes "bypassNotReadyZones", flags.bypass_not_ready)
    ∷ (codes "silentEntryExit", flags.silent)
    ∷ []

unfoldable pub disarm_body : Json → Json → Dict Text Json
disarm_body part pin = (codes "userPIN", pin) ∷ (codes "partition", part) ∷ []

abbrev partition_params : Json → Dict Text Json
partition_params part = (codes "partition", part) ∷ []

-- `partition or self._partition`
abbrev pub partition_of : Json → World → Json
partition_of partition w = or_value partition w.client.partition

module _ (env : Env) where
  -- `status`
  unfoldable pub status : Exec World PanelStatus
  status = do
    payload ← request env (codes "GET") (codes "/api/v1/status") none none
    lift (panel_status env.repr payload)

  -- `zones`
  unfoldable pub zones : Bool → Exec World (List Zone)
  zones include_console = do
    payload ← request env (codes "GET") (codes "/api/v1/zones") none none
    entries ← lift (list_of payload)
    parsed ← lift (map_result (zone env.repr) entries)
    if include_console then lift (ok parsed) else lift (without_console parsed)

  -- `get_pairing`
  unfoldable pub get_pairing : Json → Exec World Pairing
  get_pairing partition = do
    part ← gets (partition_of partition)
    payload ← request env (codes "GET") (codes "/api/v1/pair") none (some (partition_params part))
    lift (pairing env.repr payload)

  -- `arm`
  unfoldable pub arm : ArmFlags → Json → Exec World Json
  arm flags partition = do
    part ← gets (partition_of partition)
    request env (codes "POST") (codes "/api/v1/actions/panel/arm") (some (arm_body part flags))
        (some (partition_params part))

  -- `disarm`
  unfoldable pub disarm : Json → Json → Exec World Json
  disarm pin partition = do
    part ← gets (partition_of partition)
    request env (codes "POST") (codes "/api/v1/actions/panel/disarm") (some (disarm_body part pin))
        (some (partition_params part))

  -- `pair`
  unfoldable pub pair : Text → Json → Json → Json → Exec World Json
  pair device_name all_partition_access is_security_device partition = do
    part ← gets (partition_of partition)
    request env (codes "POST") (codes "/api/v1/pair")
        (some (
          (codes "deviceName", str device_name)
          ∷ (codes "allPartitionAccess", all_partition_access)
          ∷ (codes "isSecurityDevice", is_security_device)
          ∷ (codes "memberOfPartition", str (str_of env.repr part))
          ∷ []))
        none
