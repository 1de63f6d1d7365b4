-- ===== src/Routed/Config/Tests.antt =====
-- Runs of internal/routed/config.go, and its theorems at concrete inputs.
use mathlib.Core.List.{Memᴰ}
use bpc.Base.{ℕ, ◌≤◌, true, false, [], ◌∷◌, codes, some, ◌≡◌, ◌↔◌, refl}
use bpc.Base.Int.{pos}
use bpc.Base.Net.{Prefix, masked, contains, parse_prefix4}
use bpc.Base.InsertionSort.{insertion_sorter, number_float}
use bpc.Routed.Config.{
  validate_config, check_links, validate_link, psk_bytes, port_in_range, is_none, check_routes,
  check_paths, validate_path, check_path_hops, invalid_peer, Route, RoutePath, RoutingConfig,
  route_prefix, matches, route_for, source_paths,
}
use bpc.Base.{bytes_eq, has, ok, err}
use bpc.Base.Encoding.{trim_space, base64_decode}
use bpc.Routed.Samples.{config_of}
use bpc.Routed.Config.Sources.{IsSource, source_paths_iff}
use bpc.Routed.Config.Lookup.{Holds, route_for-Holds, route_for-longest}

abbrev wide : Route
wide = record { cidr = codes "192.168.0.0/16"; owner_node_id = codes "n1" }

abbrev narrow : Route
narrow = record { cidr = codes "192.168.88.0/24"; owner_node_id = codes "n2" }

abbrev narrow_path : RoutePath ℕ
narrow_path = record {
  id = codes "p1";
  owner_node_id = codes "n2";
  cidr = codes "192.168.88.0/24";
  hops = codes "n1" ∷ codes "n2" ∷ [];
  health = codes "healthy";
  rtt_ms = 3;
  loss_percent = 0;
  cost = 1;
  score = 4;
  last_seen = pos 0;
}

abbrev site_config : RoutingConfig ℕ
site_config = record {
  policy_expires_at = pos 0;
  version = pos 1;
  listen_port = pos 0;
  overlay_subnet = codes "10.66.0.0/24";
  local_public = true;
  local_site_router = false;
  node_names = [];
  links = [];
  paths = narrow_path ∷ [];
  transit_paths = [];
  routes = wide ∷ narrow ∷ [];
}

-- 192.168.88.5
abbrev printer : ℕ
printer = 3232258053

abbrev wide_prefix : Prefix
wide_prefix = record { addr = 3232235520; bits = 16 }

finds_narrow : route_for insertion_sorter site_config printer ≡ some narrow
unfolding route_for matches parse_prefix4 masked contains
finds_narrow = refl

route_for-Holds_example : (p : Prefix) × Holds site_config.routes printer narrow p
route_for-Holds_example = route_for-Holds insertion_sorter site_config printer narrow finds_narrow

route_for-longest_example :
    (best : Route) × (q : Prefix) × (route_for insertion_sorter site_config printer ≡ some best)
    × Holds site_config.routes printer best q
    × (16 ≤ q.bits)
route_for-longest_example =
    route_for-longest insertion_sorter site_config printer wide wide_prefix (Memᴰ.head refl)
      (unfold route_prefix parse_prefix4 masked in refl) (unfold contains in refl)

source_paths_iff_example :
    Memᴰ narrow_path (source_paths number_float insertion_sorter site_config (codes "n1") narrow)
    ↔ IsSource site_config (codes "n1") narrow narrow_path
source_paths_iff_example =
    source_paths_iff number_float insertion_sorter site_config (codes "n1") narrow narrow_path

-- Each Node of the line of three has a configuration that it accepts, and none of another Node that
-- links to it.
line_validates :
    (validate_config (config_of (codes "n1")) (codes "n1") ≡ ok tt)
    × (validate_config (config_of (codes "n2")) (codes "n2") ≡ ok tt)
    × (validate_config (config_of (codes "n3")) (codes "n3") ≡ ok tt)
    × (validate_config (config_of (codes "n1")) (codes "n2") ≡ err invalid_peer)
unfolding validate_config check_links validate_link psk_bytes port_in_range is_none check_routes
    check_paths validate_path check_path_hops route_prefix parse_prefix4 masked bytes_eq has
    trim_space base64_decode
line_validates = (refl, refl, refl, refl)
