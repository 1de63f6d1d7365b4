-- ===== src/Routed/Config.antt =====
-- internal/routed/config.go: the routing configuration, its validation and its look-ups.
-- `F` is Go's float64; fields that JSON can make negative are integers.
pub mod Lookup
pub mod Sources
mod Tests
use bpc.Base.{
  ℕ, zero, suc, ◌-◌, Bool, true, false, not, ◌&&◌, ◌||◌, List, [], ◌∷◌, ◌++◌, ltb, leb, ◌==◌,
  if◌then◌else◌, length, get_or, Bytes, bytes_eq, bytes_lt, has, Option, none, some, Result, ok,
  err, ◌>>=◌, ◌>>◌, fail_if,
}
use bpc.Base.Int.{ℤ, pos, negsuc, ltb_ℤ, is_zero}
use bpc.Base.Net.{Prefix, masked, contains, parse_prefix4}
use bpc.Base.Encoding.{trim_space, base64_decode}
use bpc.Base.Float.{Float}
use bpc.Base.Sort.{Sorter}
use bpc.Routed.Frame.{max_path_hops}

abbrev pub default_mesh_port : ℤ
default_mesh_port = pos 24446

pub record LinkConfig (F : Type 0) : Type 0 where
  pub id : Bytes
  pub peer_node_id : Bytes
  pub peer_name : Bytes
  pub psk : Bytes
  pub peer_endpoint : Bytes
  pub peer_public : Bool
  pub peer_site_router : Bool
  pub port : ℤ
  pub cost : F

-- The source's `Path`.
pub record RoutePath (F : Type 0) : Type 0 where
  pub id : Bytes
  pub owner_node_id : Bytes
  pub cidr : Bytes
  pub hops : List Bytes
  pub health : Bytes
  pub rtt_ms : F
  pub loss_percent : F
  pub cost : F
  pub score : F
  pub last_seen : ℤ

pub record Route : Type 0 where
  pub cidr : Bytes
  pub owner_node_id : Bytes

pub record RoutingConfig (F : Type 0) : Type 0 where
  pub policy_expires_at : ℤ
  pub version : ℤ
  pub listen_port : ℤ
  pub overlay_subnet : Bytes
  pub local_public : Bool
  pub local_site_router : Bool
  pub node_names : List (Bytes × Bytes)
  pub links : List (LinkConfig F)
  pub paths : List (RoutePath F)
  pub transit_paths : List (RoutePath F)
  pub routes : List Route

pub record Enrollment (F : Type 0) : Type 0 where
  pub node_id : Bytes
  pub routing : RoutingConfig F

-- One constructor for each error of config.go.
pub data ConfigError : Type 0 where
  no_node_id no_policy_lease not_configured invalid_listen_port invalid_overlay : ConfigError
  duplicate_peer route_without_owner : ConfigError
  link_without_id invalid_peer invalid_psk invalid_link_port : ConfigError
  path_without_id path_without_owner invalid_hop_count empty_hop hop_loop : ConfigError
  path_not_at_owner invalid_path_cidr invalid_route : ConfigError

-- `now` is a Unix time, not before 1970.
unfoldable pub policy_valid : {F : Type 0} → RoutingConfig F → ℕ → Bool
policy_valid c now = is_zero c.policy_expires_at || ltb_ℤ (pos now) c.policy_expires_at

-- A port in the range that a mesh socket may use, with 0 for the default.
port_in_range : ℤ → Bool
port_in_range p =
    let port = if is_zero p then default_mesh_port else p in
    not (ltb_ℤ port (pos 1024) || ltb_ℤ (pos 65535) port)

-- A prefix that names an IPv4 network other than the default route.
abbrev owned_prefix : Bytes → Option Prefix
owned_prefix cidr = elim (parse_prefix4 cidr) [
  | none ↦ none
  | some p ↦ if p.bits == 0 then none else some p
]

is_none {ℓ} : {A : Type ℓ} → Option A → Bool
is_none none = true
is_none (some a) = false

pub psk_bytes : {F : Type 0} → LinkConfig F → Option Bytes
psk_bytes l = elim (base64_decode (trim_space l.psk)) [
  | none ↦ none
  | some raw ↦ if length raw == 32 then some raw else none
]

pub validate_link : {F : Type 0} → LinkConfig F → Bytes → Result ConfigError (Unit {0})
unfolding port_in_range is_none psk_bytes
validate_link l local_node_id = do
  fail_if (length (trim_space l.id) == 0) link_without_id
  fail_if (length (trim_space l.peer_node_id) == 0 || bytes_eq l.peer_node_id local_node_id)
      invalid_peer
  fail_if (is_none (psk_bytes l)) invalid_psk
  fail_if (not (port_in_range l.port)) invalid_link_port

-- The loop of `Path.Validate` over the trimmed hops.
check_path_hops : List Bytes → List Bytes → Result ConfigError (Unit {0})
check_path_hops seen [] = ok tt
check_path_hops seen (hop ∷ hops) = do
  fail_if (length (trim_space hop) == 0) empty_hop
  fail_if (has (trim_space hop) seen) hop_loop
  check_path_hops (trim_space hop ∷ seen) hops

pub validate_path : {F : Type 0} → RoutePath F → Result ConfigError (Unit {0})
unfolding check_path_hops is_none
validate_path p = do
  fail_if (length (trim_space p.id) == 0) path_without_id
  fail_if (length (trim_space p.owner_node_id) == 0) path_without_owner
  fail_if (ltb (length p.hops) 2 || ltb max_path_hops (length p.hops)) invalid_hop_count
  check_path_hops [] p.hops
  fail_if (not (bytes_eq (get_or p.hops (length p.hops - 1) []) p.owner_node_id)) path_not_at_owner
  fail_if (is_none (owned_prefix p.cidr)) invalid_path_cidr

unfoldable pub route_prefix : Route → Result ConfigError Prefix
route_prefix r = elim (owned_prefix r.cidr) [ none ↦ err invalid_route | some p ↦ ok (masked p) ]

check_links :
    {F : Type 0} → Bytes → List Bytes → List (LinkConfig F) → Result ConfigError (Unit {0})
check_links local_node_id seen [] = ok tt
check_links local_node_id seen (l ∷ ls) = do
  validate_link l local_node_id
  fail_if (has l.peer_node_id seen) duplicate_peer
  check_links local_node_id (l.peer_node_id ∷ seen) ls

check_routes : List Route → Result ConfigError (Unit {0})
check_routes [] = ok tt
check_routes (r ∷ rs) = do
  p ← route_prefix r
  fail_if (length (trim_space r.owner_node_id) == 0) route_without_owner
  check_routes rs

check_paths : {F : Type 0} → List (RoutePath F) → Result ConfigError (Unit {0})
check_paths [] = ok tt
check_paths (p ∷ ps) = do validate_path p; check_paths ps

pub validate_config : {F : Type 0} → RoutingConfig F → Bytes → Result ConfigError (Unit {0})
unfolding port_in_range is_none
validate_config c local_node_id = do
  fail_if (is_zero c.version) not_configured
  fail_if (not (port_in_range c.listen_port)) invalid_listen_port
  fail_if (not (length c.overlay_subnet == 0) && is_none (parse_prefix4 c.overlay_subnet))
      invalid_overlay
  check_links local_node_id [] c.links
  check_routes c.routes
  check_paths (c.paths ++ c.transit_paths)

pub validate_enrollment : {F : Type 0} → Enrollment F → Result ConfigError (Unit {0})
validate_enrollment e = do
  fail_if (length (trim_space e.node_id) == 0) no_node_id
  fail_if (not (ltb_ℤ (pos 0) e.routing.policy_expires_at)) no_policy_lease
  validate_config e.routing e.node_id

-- `RouteFor`: the routes whose prefix holds the address, sorted by falling length, and the first.
unfoldable pub matches : List Route → ℕ → List (Route × Prefix)
unfolding route_prefix
matches [] addr = []
matches (r ∷ rs) addr = elim (route_prefix r) [
  | ok p ↦ let rest = matches rs addr in if contains p addr then (r, p) ∷ rest else rest
  | err e ↦ matches rs addr
]

abbrev longer : Route × Prefix → Route × Prefix → Bool
longer a b = ltb b.1.bits a.1.bits

first_route : List (Route × Prefix) → Option Route
first_route [] = none
first_route ((r, p) ∷ rest) = some r

unfoldable pub route_for : {F : Type 0} → Sorter → RoutingConfig F → ℕ → Option Route
unfolding first_route
route_for sorter c addr = first_route (sorter.sort longer (matches c.routes addr))

-- `SourcePaths`: the paths of a route that start here, best score first.
is_source_path : {F : Type 0} → Bytes → Route → RoutePath F → Bool
is_source_path local_node_id route p =
    not (ltb (length p.hops) 2 || not (bytes_eq (get_or p.hops 0 []) local_node_id))
    && (bytes_eq p.owner_node_id route.owner_node_id && bytes_eq p.cidr route.cidr)

keep_paths : {F : Type 0} → (RoutePath F → Bool) → List (RoutePath F) → List (RoutePath F)
keep_paths test [] = []
keep_paths test (p ∷ ps) = let rest = keep_paths test ps in if test p then p ∷ rest else rest

abbrev pub better_path : (fl : Float) → RoutePath (fl.F) → RoutePath (fl.F) → Bool
better_path fl a b = if fl.eq a.score b.score then bytes_lt a.id b.id else fl.lt a.score b.score

unfoldable pub source_paths :
    (fl : Float) → Sorter → RoutingConfig (fl.F) → Bytes → Route → List (RoutePath (fl.F))
unfolding keep_paths is_source_path
source_paths fl sorter c local_node_id route =
    sorter.sort (better_path fl) (keep_paths (is_source_path local_node_id route) c.paths)

find_path : {F : Type 0} → List (RoutePath F) → Bytes → Option (RoutePath F)
find_path [] path_id = none
find_path (p ∷ ps) path_id =
    let rest = find_path ps path_id in if bytes_eq p.id path_id then some p else rest

unfoldable pub transit_path : {F : Type 0} → RoutingConfig F → Bytes → Option (RoutePath F)
unfolding find_path
transit_path c path_id = find_path c.transit_paths path_id
