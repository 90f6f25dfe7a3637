-- ===== src/Tools/Mdns/Services.antt =====
-- tools/mdns_probe.py: `phase_enumerate`. What python-zeroconf reports is an argument: the services that
-- it finds, and what it knows of each.
use homeassistant_2gig_gc.Prelude.{
  ℕ, Option, none, some, List, [], ◌∷◌, ◌++◌, Text, codes, text_Eq, ◌==◌, decimal, if◌then◌else◌,
}

-- `get_service_info`, where it gives anything: the parsed addresses and the port.
pub record ServiceInfo : Type 0 where
  pub addresses : List Text
  pub port : Option ℕ

-- A call of the listener: a service of that type and name came, changed or went.
pub data ServiceEvent : Type 0 where
  added updated : Text → Text → Option ServiceInfo → ServiceEvent
  removed : Text → Text → ServiceEvent

-- The package is not installed, the query for the types fails, or the browsers report these events.
pub data Browsing : Type 0 where
  not_installed query_failed : Browsing
  browsed : List ServiceEvent → Browsing

abbrev port_text : Option ℕ → Text
port_text none = codes "None"
port_text (some n) = decimal n

-- The loop of `_check` over the addresses.
unfoldable pub hits_at : Text → Text → Text → Option ℕ → List Text → List Text
hits_at panel_ip kind name port [] = []
hits_at panel_ip kind name port (address ∷ addresses) =
    let rest = hits_at panel_ip kind name port addresses in
    if address == panel_ip
    then (name ++ codes " [" ++ kind ++ codes "] " ++ address ++ codes ":" ++ port_text port) ∷ rest
    else rest

-- `_check`: what it appends to the hits.
unfoldable pub check_service : Text → Text → Text → Option ServiceInfo → List Text
unfolding hits_at
check_service panel_ip kind name none = []
check_service panel_ip kind name (some info) = hits_at panel_ip kind name info.port info.addresses

abbrev pub on_event : Text → ServiceEvent → List Text
on_event panel_ip (added kind name info) = check_service panel_ip kind name info
on_event panel_ip (updated kind name info) = check_service panel_ip kind name info
on_event panel_ip (removed kind name) = []

unfoldable pub collect_hits : Text → List ServiceEvent → List Text
unfolding check_service
collect_hits panel_ip [] = []
collect_hits panel_ip (e ∷ events) = on_event panel_ip e ++ collect_hits panel_ip events

-- `phase_enumerate`
unfoldable pub phase_enumerate : Text → Browsing → List Text
unfolding collect_hits
phase_enumerate panel_ip not_installed = []
phase_enumerate panel_ip query_failed = []
phase_enumerate panel_ip (browsed events) = collect_hits panel_ip events
