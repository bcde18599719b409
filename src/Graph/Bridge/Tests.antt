-- ===== src/Graph/Bridge/Tests.antt =====
-- A subscription that is handed an event after its context is done.
use lite_end_go.Base.{◌≡◌, refl, true, none, some, List, [], ◌∷◌, ◌++◌}
use lite_end_go.Strings.{codes}
use lite_end_go.Profile.Store.{Profile}
use lite_end_go.Graph.Bridge.{Phase, Bridge, new_bridge, Step, Reach}
use lite_end_go.Graph.Bridge.Laws.{NoneLost, IsReleased, CanEnd, Reach-IsBridged}

abbrev renamed : Profile
renamed = record {
  id = 7;
  created_at = 1;
  updated_at = 2;
  oidc_sub = codes "alice";
  roles = [];
  avatar_url = none;
  display_name = some (codes "Al");
  bio = none;
}

abbrev in_hand : Bridge
in_hand = record new_bridge { phase = Phase.holding renamed; accepted = renamed ∷ []; done = true }

in_hand-Reach : Reach in_hand
in_hand-Reach =
    Reach.next (Reach.next (Reach.next Reach.begun Step.cancel) (Step.dispatch renamed refl refl))
      (Step.take renamed refl refl)

Reach-IsBridged_example :
    ((rest : List Profile) × (in_hand.accepted ≡ in_hand.received ++ rest))
    × NoneLost in_hand.phase in_hand
    × IsReleased in_hand.phase in_hand.out_closed in_hand.released
    × (in_hand.done ≡ true → CanEnd in_hand.phase in_hand)
Reach-IsBridged_example = Reach-IsBridged in_hand-Reach
