-- ===== src/Gc3/Coordinator/Snapshots.antt =====
-- What a poll returns when the panel answers well.
use homeassistant_2gig_gc.Prelude.{
  ◌≡◌, refl, ◌∙◌, not, false, Option, none, some, List, Text, codes, Dict, map, filter, All,
}
use homeassistant_2gig_gc.Python.Effects.{Result, ok, raised}
use homeassistant_2gig_gc.Python.Json.{Json, Fields, Items, obj, arr}
use homeassistant_2gig_gc.Pygc3.Models.{PanelStatus, panel_status, Zone}
use homeassistant_2gig_gc.Pygc3.Client
use homeassistant_2gig_gc.Pygc3.Client.{Env, World, Reply, items}
use homeassistant_2gig_gc.Pygc3.Client.Failures.{payload_of, value_of, reply_to, request-payload}
use homeassistant_2gig_gc.Pygc3.Parsing.{IsEntry, console_entry, Listed, entries-Listed}
use homeassistant_2gig_gc.Pygc3.Wire.{wire_word, wire_stay}
use homeassistant_2gig_gc.Gc3.Coordinator.{
  Coordinator, Gc3Data, update_data, fetch, new_data, absorb,
}
use homeassistant_2gig_gc.Gc3.Coordinator.Polling.{status_reply}

-- The reply of the panel to the second request of a poll, which follows the status request.
abbrev pub zones_reply : Env → World → Reply
zones_reply env w =
    reply_to env (codes "GET") (codes "/api/v1/zones") none none (Client.status env w).1

-- The panel answers a poll well: the status request by a JSON object, the zones request by an array
-- of well-formed entries.
pub record IsAnswered (env : Env) (w : World) (fields : Fields) (entries : Items) : Type 0 where
  pub status : payload_of (status_reply env w) ≡ some (obj fields)
  pub zones : payload_of (zones_reply env w) ≡ some (arr entries)
  pub entry : All IsEntry (items entries)

value_of_inv {ℓ} : {A : Type ℓ} (r : Result A) (a : A) → value_of r ≡ some a → r ≡ ok a
value_of_inv (ok b) a e = cc
value_of_inv (raised x) a e = cc

-- A request that is answered by JSON returns it.
request-answered :
    (env : Env) (method path : Text) (body params : Option (Dict Text Json)) (w : World) (v : Json)
    → payload_of (reply_to env method path body params w) ≡ some v
    → (Client.request env method path body params w).0 ≡ ok v
request-answered env method path body params w v e =
    value_of_inv (Client.request env method path body params w).0 v
      (request-payload env method path body params w ∙ e)

-- A status holds a status answer, its word and its flag.
pub record Holds (repr : Json → Text) (fs : Fields) (s : PanelStatus) : Type 0 where
  pub raw : s.raw ≡ obj fs
  pub word : s.arm_state ≡ wire_word repr fs
  pub stay : s.is_armed_stay ≡ wire_stay fs

object-parses :
    (repr : Json → Text) (fs : Fields)
    → (s : PanelStatus) × (panel_status repr (obj fs) ≡ ok s) × Holds repr fs s
unfolding panel_status
object-parses repr fs = (_, refl, record { raw = refl; word = refl; stay = refl })

pub status-answered :
    (env : Env) (w : World) (fs : Fields)
    → payload_of (status_reply env w) ≡ some (obj fs)
    → (s : PanelStatus) × ((Client.status env w).0 ≡ ok s) × Holds env.repr fs s
unfolding Client.status
status-answered env w fs e =
    let (s, parsed, held) = object-parses env.repr fs in
    (
      s,
      rw (request-answered env (codes "GET") (codes "/api/v1/status") none none w (obj fs) e)
          parsed,
      held,
    )

pub zones-answered :
    (env : Env) (w : World) (vs : Items) (left : List Json)
    → payload_of (reply_to env (codes "GET") (codes "/api/v1/zones") none none w) ≡ some (arr vs)
    → Listed env.repr (items vs) left
    → (kept : List Zone) × ((Client.zones env false w).0 ≡ ok kept) × (map (λ z. z.raw) kept ≡ left)
unfolding Client.zones
zones-answered env w vs left e (parsed, all, kept, rest, raws) =
    let asked = request-answered env (codes "GET") (codes "/api/v1/zones") none none w (arr vs) e in
    (kept, rw (asked, all, rest) refl, raws)

-- What a poll returns for such answers.
abbrev pub Snapshot : (Json → Text) → Fields → List Json → Result Gc3Data → Type 0
Snapshot repr fields entries (ok d) =
    (d.status.raw ≡ obj fields)
    × (map (λ z. z.raw) d.zones ≡ filter (λ v. not (console_entry repr v)) entries)
Snapshot repr fields entries (raised e) = ⊥

-- When the panel answers the status request with a JSON object and the zones request with an array
-- of well-formed entries, the poll succeeds: its status holds that object, and its zones hold those
-- entries, untouched and in their order, less exactly the console's.
pub poll-Snapshot :
    (env : Env) (c : Coordinator) (fields : Fields) (entries : Items)
    → IsAnswered env c.world fields entries
    → Snapshot env.repr fields (items entries) (update_data env c).0
unfolding update_data fetch new_data absorb
poll-Snapshot env c fields entries h =
    let (s, told, held) = status-answered env c.world fields h.status in
    let (kept, listed, raws) =
      zones-answered env (Client.status env c.world).1 entries _ h.zones
        (entries-Listed env.repr (items entries) h.entry) in
    rw (told, listed) (held.raw, raws)
