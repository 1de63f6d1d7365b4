-- ===== src/Routed/Samples.antt =====
-- A mesh of two Nodes, `n1` and `n2`, with a site behind `n2`, and one of three with a site behind
-- `n3`: data for the tests of internal/routed.
use bpc.Base.{ℕ, true, false, [], ◌∷◌, if◌then◌else◌, Bytes, bytes_eq, codes, none}
use bpc.Base.Int.{pos}
use bpc.Routed.Frame.{Frame}
use bpc.Routed.Config.{LinkConfig, RoutePath, RoutingConfig}
use bpc.Routed.Selection.{MeshView}
use bpc.Routed.Router.{Router}

-- An IPv4 packet without content, from 10.66.0.2 to 192.168.88.5.
abbrev pub packet : Bytes
packet =
    0x45 ∷ 0 ∷ 0 ∷ 20 ∷ 0 ∷ 0 ∷ 0 ∷ 0 ∷ 64 ∷ 17 ∷ 0 ∷ 0 ∷ 10 ∷ 66 ∷ 0 ∷ 2 ∷ 192 ∷ 168 ∷ 88 ∷ 5 ∷ []

-- The reply, from 192.168.88.5 to 10.66.0.2.
abbrev pub answer : Bytes
answer =
    0x45 ∷ 0 ∷ 0 ∷ 20 ∷ 0 ∷ 0 ∷ 0 ∷ 0 ∷ 64 ∷ 17 ∷ 0 ∷ 0 ∷ 192 ∷ 168 ∷ 88 ∷ 5 ∷ 10 ∷ 66 ∷ 0 ∷ 2 ∷ []

abbrev pub site_path : RoutePath ℕ
site_path = record {
  id = codes "p1";
  owner_node_id = codes "n2";
  cidr = codes "192.168.88.0/24";
  hops = codes "n1" ∷ codes "n2" ∷ [];
  health = codes "healthy";
  rtt_ms = 3;
  loss_percent = 0;
  cost = 1;
  score = 4;
  last_seen = pos 0;
}

abbrev pub site_config : RoutingConfig ℕ
site_config = record {
  policy_expires_at = pos 0;
  version = pos 1;
  listen_port = pos 0;
  overlay_subnet = codes "10.66.0.0/24";
  local_public = false;
  local_site_router = true;
  node_names = [];
  links = [];
  paths = site_path ∷ [];
  transit_paths = site_path ∷ [];
  routes = record { cidr = codes "192.168.88.0/24"; owner_node_id = codes "n2" } ∷ [];
}

abbrev pub arriving : Frame
arriving = record {
  path_id = codes "p1";
  owner_node_id = codes "n2";
  hops = codes "n1" ∷ codes "n2" ∷ [];
  hop_index = 1;
  is_return = false;
  payload = packet;
}

abbrev pub arriving_bytes : Bytes
arriving_bytes =
    b'B' ∷ b'P' ∷ b'R' ∷ b'1' ∷ 0 ∷ 1 ∷ 2 ∷ 2 ∷ b'p' ∷ b'1' ∷ 2 ∷ b'n' ∷ b'2' ∷ 2 ∷ b'n' ∷ b'1' ∷ 2
    ∷ b'n' ∷ b'2' ∷ 0 ∷ 20 ∷ packet

abbrev pub router_at : Bytes → Router ℕ
router_at id = record {
  local_node_id = id;
  config = site_config;
  selections = [];
  reverse_paths = [];
}

abbrev pub all_up : MeshView ℕ
all_up = record { can_send = λ peer. true; link_status = λ peer. none }

-- A line of three Nodes with a site behind `n3`.
abbrev pub relay_path : RoutePath ℕ
relay_path = record site_path {
  owner_node_id = codes "n3";
  hops = codes "n1" ∷ codes "n2" ∷ codes "n3" ∷ [];
}

abbrev pub link_to : Bytes → LinkConfig ℕ
link_to peer = record {
  id = peer;
  peer_node_id = peer;
  peer_name = [];
  psk = codes "AAAAAAAAAAAAAAAAAAAAAAAAAAAAAAAAAAAAAAAAAAA=";
  peer_endpoint = [];
  peer_public = false;
  peer_site_router = false;
  port = pos 0;
  cost = 1;
}

abbrev pub base_config : RoutingConfig ℕ
base_config = record site_config {
  local_site_router = false;
  paths = [];
  transit_paths = relay_path ∷ [];
  routes = record { cidr = codes "192.168.88.0/24"; owner_node_id = codes "n3" } ∷ [];
}

-- `n1` has the path as a source, `n2` links both, `n3` is the site router.
abbrev pub config_of : Bytes → RoutingConfig ℕ
config_of id =
    if bytes_eq id (codes "n1")
    then record base_config { links = link_to (codes "n2") ∷ []; paths = relay_path ∷ [] }
    else if bytes_eq id (codes "n2")
    then record base_config { links = link_to (codes "n1") ∷ link_to (codes "n3") ∷ [] }
    else record base_config { links = link_to (codes "n2") ∷ []; local_site_router = true }
