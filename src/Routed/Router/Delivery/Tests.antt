-- ===== src/Routed/Router/Delivery/Tests.antt =====
-- A mesh of three Nodes of internal/routed/router.go in a line, each with a configuration and links
-- of its own, and a packet from `n1` over `n2` to the site behind `n3`.
use bpc.Base.{
  ℕ, ◌≤◌, ◌<◌, zero, suc, if◌then◌else◌, Bool, true, false, List, [], ◌∷◌, Bytes, bytes_eq,
  bytes_lt, codes, has, be, put_be, none, ok, ◌≡◌, refl, arith,
}
use bpc.Base.InsertionSort.{insertion_sorter, number_float}
use bpc.Base.Net.{parse_prefix4, masked, contains}
use bpc.Base.Dict.{lookup, insert}
use bpc.Routed.Frame.{Frame, unmarshal_frame, marshal_frame, validate_basic, check_hops, check_ends}
use bpc.Routed.Frame.Valid.{IsValid, validate_basic_iff}
use bpc.Routed.Config.{
  LinkConfig, policy_valid, route_for, transit_path, source_paths, route_prefix, matches,
}
use bpc.Routed.Transit.{parse_ipv4_endpoints, prefix_holds}
use bpc.Routed.Transit.Approval.{forth}
use bpc.Routed.Selection.{
  MeshView, choose_path, select, find_current, candidates_of, viable_path, path_score,
}
use bpc.Routed.Router.{Router, send, write, handle_tun_packet, originate, choose_for, send_frame}
use bpc.Routed.Router.Delivery.{travel, IsStation, travel_arrives}
use bpc.Routed.Samples.{packet, relay_path, config_of}

abbrev node_of : Bytes → Router ℕ
node_of id = record {
  local_node_id = id;
  config = config_of id;
  selections = [];
  reverse_paths = [];
}

abbrev is_peer : Bytes → List (LinkConfig ℕ) → Bool
is_peer peer [] = false
is_peer peer (l ∷ ls) = if bytes_eq l.peer_node_id peer then true else is_peer peer ls

-- A Node can send to the peers of its links, and to no other, itself among them.
abbrev mesh_of : Bytes → MeshView ℕ
mesh_of id = record {
  can_send = λ peer. is_peer peer (config_of id).links;
  link_status = λ peer. none;
}

abbrev relayed : Frame
relayed = record {
  path_id = codes "p1";
  owner_node_id = codes "n3";
  hops = codes "n1" ∷ codes "n2" ∷ codes "n3" ∷ [];
  hop_index = 1;
  is_return = false;
  payload = packet;
}

abbrev relayed_bytes : Bytes
relayed_bytes =
    b'B' ∷ b'P' ∷ b'R' ∷ b'1' ∷ 0 ∷ 1 ∷ 3 ∷ 2 ∷ b'p' ∷ b'1' ∷ 2 ∷ b'n' ∷ b'3' ∷ 2 ∷ b'n' ∷ b'1' ∷ 2
    ∷ b'n' ∷ b'2' ∷ 2 ∷ b'n' ∷ b'3' ∷ 0 ∷ 20 ∷ packet

relayed-IsValid : IsValid relayed
relayed-IsValid =
    (validate_basic_iff relayed).0
      (unfold validate_basic check_hops check_ends bytes_eq has in refl)

relayed_reads : unmarshal_frame relayed_bytes ≡ ok relayed
unfolding unmarshal_frame validate_basic check_hops check_ends bytes_eq has be
relayed_reads = refl

-- `n1` sends this frame for the packet from its tunnel device.
first_sends :
    (handle_tun_packet number_float insertion_sorter
      (mesh_of (codes "n1"))
      (node_of (codes "n1"))
      packet
      7).1
    ≡ ok (send (codes "n2") relayed_bytes)
unfolding handle_tun_packet parse_ipv4_endpoints be policy_valid prefix_holds parse_prefix4 contains
    originate choose_for send_frame marshal_frame validate_basic check_hops check_ends has put_be
    route_for matches route_prefix masked source_paths choose_path select find_current candidates_of
    viable_path path_score bytes_eq bytes_lt lookup insert
first_sends = refl

stations :
    (i : ℕ)
    → 1 ≤ i
    → i < 3
    → IsStation insertion_sorter node_of mesh_of 7 relayed 0x0a420002 0xc0a85805 i
unfolding policy_valid transit_path prefix_holds route_for matches route_prefix parse_prefix4 masked
    contains bytes_eq
stations zero h k = absurd (omega arith)
stations (suc zero) h k = record {
  runs = refl;
  lease = refl;
  path = relay_path;
  known = refl;
  owner = refl;
  hops = refl;
  direction = forth refl refl refl record {
    route = record { cidr = codes "192.168.88.0/24"; owner_node_id = codes "n3" };
    chosen = refl;
    owned = refl;
    same_cidr = refl;
  };
  up = λ more. refl;
}
stations (suc (suc zero)) h k = record {
  runs = refl;
  lease = refl;
  path = relay_path;
  known = refl;
  owner = refl;
  hops = refl;
  direction = forth refl refl refl record {
    route = record { cidr = codes "192.168.88.0/24"; owner_node_id = codes "n3" };
    chosen = refl;
    owned = refl;
    same_cidr = refl;
  };
  up = λ more. absurd (omega (arith, more));
}
stations (suc (suc (suc i))) h k = absurd (omega arith)

travel_arrives_example :
    travel insertion_sorter node_of mesh_of 7 2 (codes "n1") (send (codes "n2") relayed_bytes)
    ≡ ok (codes "n3", write packet)
travel_arrives_example =
    travel_arrives insertion_sorter node_of mesh_of 7 relayed 0x0a420002 0xc0a85805 relayed_bytes
      relayed-IsValid relayed_reads (unfold parse_ipv4_endpoints be in refl) stations
