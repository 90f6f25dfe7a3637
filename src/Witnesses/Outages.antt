-- ===== src/Witnesses/Outages.antt =====
-- Twenty polls that find a zone lost.
use homeassistant_2gig_gc.Prelude.{
  ℕ, zero, suc, ◌≡◌, refl, true, false, Option, none, some, List, [], ◌∷◌, codes, text_Eq, text_eq,
  contains, IsDistinct, All, ends_with, lower, strip, arith,
}
use homeassistant_2gig_gc.Python.Effects.{ok, map_result}
use homeassistant_2gig_gc.Python.Json.{get_field, str_of}
use homeassistant_2gig_gc.Pygc3.Models.{Zone, PanelStatus, panel_status, zone}
use homeassistant_2gig_gc.Pygc3.Client.{Request, zones, without_console, status, request}
use homeassistant_2gig_gc.Gc3.Coordinator.{
  Coordinator, Gc3Data, Supervision, zone_ids, issue_id, absorb, new_data,
}
use homeassistant_2gig_gc.Gc3.Coordinator.Registry.{Mirrors, stands}
use homeassistant_2gig_gc.Gc3.Coordinator.Streaks.{is_lost}
use homeassistant_2gig_gc.Gc3.Lifetime.{zones_polled}
use homeassistant_2gig_gc.Gc3.Interleaving.{
  begin_poll, end_poll, no_poll, waiting, Run, start, begins, ends,
}
use homeassistant_2gig_gc.Gc3.Interleaving.Outage.{Run-opens_issue}
use homeassistant_2gig_gc.Witnesses.Fixtures.{
  armed_env, some_coordinator, some_client, status_json, no_supervision,
}

-- The coordinator behind some requests; its client has a session that was injected.
abbrev at : List Request → Supervision → Option Gc3Data → Coordinator
at sent supervision last = record some_coordinator {
  world = record {
    client = record some_client { session = some 0; owns_session = false };
    next_session = 1;
    open_sessions = 0 ∷ [];
    sent = sent;
  };
  supervision = supervision;
  last = last;
}

abbrev armed_status : PanelStatus
armed_status = record {
  arm_state = codes "armed";
  is_armed_stay = true;
  raw = status_json (codes "ARMED") true;
}

abbrev first : Coordinator
first = at [] no_supervision none

abbrev one_poll : List (List Zone)
one_poll = zones_polled (end_poll armed_env armed_status first).0 []

abbrev listed : List Zone
listed = elim one_poll [ [] ↦ [] | (zs ∷ later) ↦ zs ]

begun :
    (sent : List Request) (s : Supervision) (last : Option Gc3Data)
    → (sent' : List Request) × (begin_poll armed_env (at sent s last)
        ≡ (ok armed_status, at sent' s last))
unfolding begin_poll status request ends_with panel_status lower str_of get_field text_eq
begun sent s last = (_, refl)

ended :
    (sent : List Request) (s : Supervision) (last : Option Gc3Data)
    → (sent' : List Request) × (s' : Supervision) × (d : Gc3Data) × (end_poll armed_env armed_status
          (at sent s last)
        ≡ (ok d, at sent' s' last))
      × (d.zones ≡ listed)
unfolding end_poll zones request ends_with map_result zone get_field text_eq without_console str_of
    lower strip contains absorb new_data
ended sent s last = (_, _, _, refl, refl)

-- The coordinator came through these polls to where no poll is under way.
abbrev Reached : List (List Zone) → Type 0
Reached polls =
    (sent : List Request) × (s : Supervision) × (last : Option Gc3Data) × Run armed_env first polls
      no_poll (at sent s last)

one_more : (polls : List (List Zone)) → Reached polls → Reached (listed ∷ polls)
one_more polls (sent, s, last, run) =
    let (sent', begins_with) = begun sent s last in
    let (sent'', s', d, ends_with', same) = ended sent' s last in
    let waits : Run armed_env first polls (waiting armed_status) (at sent' s last) =
      rw begins_with at (begins run) in
    let ended_run : Run armed_env first (listed ∷ polls) no_poll (at sent'' s' (some d)) =
      rw (ends_with', same) at (ends waits) in
    (sent'', s', some d, ended_run)

abbrev copies : ℕ → List (List Zone)
copies zero = []
copies (suc n) = listed ∷ copies n

many : (n : ℕ) → Reached (copies n)
many zero = ([], no_supervision, none, start)
many (suc n) = one_more (copies n) (many n)

listed_lost : is_lost listed (codes "2") ≡ true
unfolding end_poll zones request ends_with map_result zone get_field text_eq without_console str_of
    lower strip contains absorb new_data
listed_lost = refl

listed-IsDistinct : IsDistinct (zone_ids listed)
unfolding end_poll zones request ends_with map_result zone get_field text_eq without_console str_of
    lower strip contains absorb new_data
listed-IsDistinct = (refl, (refl, tt))

all_lost : (n : ℕ) → All (λ zones. is_lost zones (codes "2") ≡ true) (copies n)
all_lost zero = tt
all_lost (suc n) = (listed_lost, all_lost n)

all-IsDistinct : (n : ℕ) → All (λ zones. IsDistinct (zone_ids zones)) (copies n)
all-IsDistinct zero = tt
all-IsDistinct (suc n) = (listed-IsDistinct, all-IsDistinct n)

first-Mirrors : Mirrors (codes "e") no_supervision
unfolding contains
first-Mirrors i = refl

abbrev lost_for_20 : Coordinator
lost_for_20 = let (sent, s, last, run) = many 20 in at sent s last

lost_run : Run armed_env first (copies 20) no_poll lost_for_20
lost_run = (many 20).3

Run-opens_issue_example :
    stands lost_for_20.supervision.issues (issue_id (codes "e") (codes "2")) ≡ true
Run-opens_issue_example =
    Run-opens_issue (copies 20) [] (codes "2") lost_run first-Mirrors (all-IsDistinct 20)
      (omega arith) (all_lost 20)
