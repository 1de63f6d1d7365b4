-- ===== src/Routed/Router/Status.antt =====
-- `SelectedPaths` of internal/routed/router.go: what a public Node reports of its routes. The code
-- takes the mutex once for the configuration and once for each route; the loop is modelled as one
-- run with no other method in between.
pub mod Reported
mod Tests
use bpc.Base.{
  ℕ, ◌/◌, ◌==◌, ◌||◌, ◌&&◌, not, if◌then◌else◌, Bool, true, false, List, [], ◌∷◌, ◌++◌, length,
  Bytes, bytes_eq, Option, none, some, ◌≡◌, refl, sym, ◌∙◌, ap, arith,
}
use bpc.Base.Sort.{Sorter}
use bpc.Base.Float.{Float}
use bpc.Base.Dict.{Dict, lookup}
use bpc.Routed.Config.{Route, RoutePath, RoutingConfig, policy_valid, source_paths}
use bpc.Routed.Selection.{MeshView, viable_path}
use bpc.Routed.Router.{Router, choose_for}

pub record SelectedPathStatus (F : Type 0) : Type 0 where
  pub cidr : Bytes
  pub owner_node_id : Bytes
  pub path_id : Bytes
  pub hops : List Bytes
  pub hop_names : List Bytes
  pub health : Bytes
  pub rtt_ms : F
  pub loss_percent : F
  pub cost : F
  pub standby_path_ids : List Bytes

-- A hop without a name, or with an empty one, is shown by its id.
pub display_hop_names : List Bytes → Dict Bytes → List Bytes
display_hop_names [] names = []
display_hop_names (hop ∷ hops) names =
    let rest = display_hop_names hops names in
    elim (lookup hop names) [
      | none ↦ hop ∷ rest
      | some name ↦ if length name == 0 then hop ∷ rest else name ∷ rest
    ]

module _ (fl : Float) (sorter : Sorter) (mesh : MeshView (fl.F)) where
  open fl use {F}

  is_viable : Bytes → RoutePath F → Bool
  is_viable local p = elim (viable_path fl mesh local p) [ none ↦ false | some score ↦ true ]

  standby_ids : Bytes → Bytes → List (RoutePath F) → List Bytes
  unfolding is_viable
  standby_ids local selected [] = []
  standby_ids local selected (p ∷ ps) =
      let rest = standby_ids local selected ps in
      if bytes_eq p.id selected then rest else if is_viable local p then p.id ∷ rest else rest

  status_of : Router F → Route → List (RoutePath F) → RoutePath F → SelectedPathStatus F
  unfolding standby_ids
  status_of r route paths p = record {
    cidr = route.cidr;
    owner_node_id = route.owner_node_id;
    path_id = p.id;
    hops = p.hops;
    hop_names = display_hop_names p.hops r.config.node_names;
    health = p.health;
    rtt_ms = p.rtt_ms;
    loss_percent = p.loss_percent;
    cost = p.cost;
    standby_path_ids = standby_ids r.local_node_id p.id paths;
  }

  -- One round of the loop over the routes: `choosePath` may move the route's selection.
  report : Router F → Route → ℕ → Router F × List (SelectedPathStatus F)
  unfolding status_of
  report r route now =
      let paths = source_paths fl sorter r.config r.local_node_id route in
      let (r', chosen) = choose_for fl sorter mesh r route paths now in
      if length paths == 0
      then (r, [])
      else elim chosen [ none ↦ (r', []) | some p ↦ (r', status_of r route paths p ∷ []) ]

  select_routes : Router F → List Route → ℕ → Router F × List (SelectedPathStatus F)
  unfolding report
  select_routes r [] now = (r, [])
  select_routes r (route ∷ routes) now =
      let (r', reported) = report r route now in
      let (r2, others) = select_routes r' routes now in (r2, reported ++ others)

  -- `now` and `later` are the two readings of the clock.
  pub selected_paths : Router F → ℕ → ℕ → Router F × List (SelectedPathStatus F)
  unfolding select_routes
  selected_paths r now later =
      if not r.config.local_public || not (policy_valid r.config (now / 1000000000))
      then (r, [])
      else select_routes r r.config.routes later
