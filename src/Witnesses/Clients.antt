-- ===== src/Witnesses/Clients.antt =====
-- The client at concrete inputs.
use homeassistant_2gig_gc.Prelude.{◌≡◌, refl, none, List, [], ◌∷◌, Text, codes, nat_Eq}
use homeassistant_2gig_gc.Python.Effects.{Result, ok, raised}
use homeassistant_2gig_gc.Pygc3.Models.{Zone}
use homeassistant_2gig_gc.Pygc3.Client.{World, request, close}
use homeassistant_2gig_gc.Pygc3.Client.Lifecycle.{asked, here, next, IsTidy, Reach-close_restores}
use homeassistant_2gig_gc.Witnesses.Fixtures.{armed_env, some_world}

abbrev get_method : Text
get_method = codes "GET"

abbrev status_path : Text
status_path = codes "/api/v1/status"

some_world-IsTidy : IsTidy (0 ∷ []) some_world
some_world-IsTidy = record { below = refl; shape = refl }

abbrev asked_twice : World
asked_twice =
    (request armed_env get_method status_path none none
      (request armed_env get_method status_path none none some_world).1).1

Reach-close_restores_example : (close asked_twice).open_sessions ≡ 0 ∷ []
Reach-close_restores_example = Reach-close_restores armed_env (0 ∷ []) some_world-IsTidy (
    next (next here (asked some_world get_method status_path none none)) (
      asked (request armed_env get_method status_path none none some_world).1 get_method status_path
        none none))

abbrev zones_of : Result (List Zone) → List Zone
zones_of (ok zs) = zs
zones_of (raised e) = []
