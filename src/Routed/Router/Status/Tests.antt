-- ===== src/Routed/Router/Status/Tests.antt =====
-- A report of `SelectedPaths` of internal/routed/router.go, and its theorem at a concrete input.
use bpc.Base.{◌/◌, ◌&&◌, true, [], bytes_eq, bytes_lt, codes, length, All, ◌≡◌, ◌⊎◌, refl, ℕ}
use bpc.Base.InsertionSort.{insertion_sorter, number_float}
use bpc.Base.Net.{parse_prefix4}
use bpc.Base.Dict.{lookup, insert}
use bpc.Routed.Config.{RoutingConfig, policy_valid, source_paths, route_prefix}
use bpc.Routed.Selection.{choose_path, select, find_current, candidates_of, viable_path, path_score}
use bpc.Routed.Router.{Router, choose_for}
use bpc.Routed.Router.Status.{
  selected_paths, select_routes, report, status_of, standby_ids, is_viable,
}
use bpc.Routed.Router.Status.Reported.{IsReported, selected_paths-IsReported}
use bpc.Routed.Samples.{site_config, router_at, all_up}

abbrev public_config : RoutingConfig ℕ
public_config = record site_config { local_public = true }

abbrev public_router : Router ℕ
public_router = record (router_at (codes "n1")) { config = public_config }

reports_one : length (selected_paths number_float insertion_sorter all_up public_router 7 8).1 ≡ 1
unfolding selected_paths policy_valid select_routes report source_paths choose_for choose_path
    select find_current candidates_of viable_path path_score bytes_eq bytes_lt lookup insert
    status_of standby_ids is_viable route_prefix parse_prefix4
reports_one = refl

selected_paths-IsReported_example :
    All
      (IsReported number_float insertion_sorter all_up public_config (codes "n1"))
      (selected_paths number_float insertion_sorter all_up public_router 7 8).1
    × ((public_config.local_public && policy_valid public_config (7 / 1000000000) ≡ true)
        ⊎ ((selected_paths number_float insertion_sorter all_up public_router 7 8).1 ≡ []))
selected_paths-IsReported_example =
    selected_paths-IsReported number_float insertion_sorter all_up public_router 7 8
