-- ===== src/Routed/Router/Tests.antt =====
-- Runs of the router of internal/routed/router.go, and its theorems at concrete inputs.
use mathlib.Core.List.{reverse}
use bpc.Base.{
  ℕ, ◌/◌, true, [], ◌∷◌, Bytes, bytes_eq, bytes_lt, codes, has, be, put_be, All, ok, ◌≡◌, refl, sym,
  ◌∙◌, ap, List, arith,
}
use bpc.Base.InsertionSort.{insertion_sorter, number_float}
use bpc.Base.Net.{format_addr4, parse_prefix4, masked, contains}
use bpc.Base.Dict.{lookup, insert}
use bpc.Routed.Frame.{Frame, unmarshal_frame, marshal_frame, validate_basic, check_hops, check_ends}
use bpc.Routed.Config.{policy_valid, route_for, transit_path, source_paths, route_prefix, matches}
use bpc.Routed.Transit.{
  parse_ipv4_endpoints, validate_frame_for_node, check_path, check_forward, equal_strings,
  prefix_holds, route_is,
}
use bpc.Routed.Transit.Approval.{Approved, validate_frame_iff}
use bpc.Routed.Selection.{choose_path, select, find_current, candidates_of, viable_path, path_score}
use bpc.Routed.Router.{
  Router, send, write, first_frame, handle_mesh_data, handle_tun_packet, remember_reverse,
  originate, choose_for, send_frame, arrive, reply, reverse_for, forget_reverse, drop_expired,
  expired,
}
use bpc.Routed.Router.Relay.{Handled, handle_mesh_data-Handled}
use bpc.Routed.Router.Events.{Elsewhere, Event, came, tunnelled, Between, step, handle_all}
use bpc.Routed.Router.Replies.{reply_returns}
use bpc.Routed.Router.Origin.{Originated, handle_tun_packet-Originated}
use bpc.Routed.Samples.{
  packet, answer, site_path, site_config, arriving, arriving_bytes, router_at, all_up,
}

arriving_reads : unmarshal_frame arriving_bytes ≡ ok arriving
unfolding unmarshal_frame validate_basic check_hops check_ends bytes_eq has be
arriving_reads = refl

arriving_accepted :
    validate_frame_for_node insertion_sorter arriving (codes "n2") (codes "n1") site_config
    ≡ ok site_path
unfolding validate_frame_for_node validate_basic check_hops check_ends bytes_eq has be check_path
    check_forward equal_strings prefix_holds route_is route_for transit_path parse_ipv4_endpoints
    parse_prefix4 masked contains route_prefix matches
arriving_accepted = refl

arriving-Approved :
    Approved insertion_sorter site_config arriving (codes "n2") (codes "n1") site_path
arriving-Approved =
    (validate_frame_iff insertion_sorter arriving (codes "n2") (codes "n1") site_config site_path).0
      arriving_accepted

owner_writes :
    handle_mesh_data insertion_sorter all_up
      (router_at (codes "n2"))
      (codes "n1")
      arriving_bytes
      7
      8
    ≡ (remember_reverse (router_at (codes "n2")) 0x0a420002 site_path 8, ok (write packet))
unfolding handle_mesh_data unmarshal_frame validate_frame_for_node validate_basic check_hops
    check_ends bytes_eq has be check_path check_forward equal_strings prefix_holds route_is
    route_for transit_path parse_ipv4_endpoints parse_prefix4 masked contains route_prefix matches
    policy_valid remember_reverse arrive
owner_writes = refl

handle_mesh_data-Handled_example :
    Handled insertion_sorter all_up
      (router_at (codes "n2"))
      (codes "n1")
      arriving_bytes
      7
      (write packet)
handle_mesh_data-Handled_example =
    handle_mesh_data-Handled insertion_sorter all_up (router_at (codes "n2")) (codes "n1")
      arriving_bytes 7 8 (write packet) (ap (λ s. s.1) owner_writes)

-- A frame from another Device, 10.66.0.3, and its bytes.
abbrev other_packet : Bytes
other_packet =
    0x45 ∷ 0 ∷ 0 ∷ 20 ∷ 0 ∷ 0 ∷ 0 ∷ 0 ∷ 64 ∷ 17 ∷ 0 ∷ 0 ∷ 10 ∷ 66 ∷ 0 ∷ 3 ∷ 192 ∷ 168 ∷ 88 ∷ 5 ∷ []

abbrev other_arriving : Frame
other_arriving = record arriving { payload = other_packet }

abbrev other_bytes : Bytes
other_bytes =
    b'B' ∷ b'P' ∷ b'R' ∷ b'1' ∷ 0 ∷ 1 ∷ 2 ∷ 2 ∷ b'p' ∷ b'1' ∷ 2 ∷ b'n' ∷ b'2' ∷ 2 ∷ b'n' ∷ b'1' ∷ 2
    ∷ b'n' ∷ b'2' ∷ 0 ∷ 20 ∷ other_packet

other_reads : unmarshal_frame other_bytes ≡ ok other_arriving
unfolding unmarshal_frame validate_basic check_hops check_ends bytes_eq has be
other_reads = refl

other-Elsewhere : Elsewhere 0x0a420002 other_bytes
unfolding Elsewhere
other-Elsewhere f source destination read ends =
    let same : f ≡ other_arriving = ground (arith, other_reads) in
    let there : parse_ipv4_endpoints other_packet ≡ ok (source, destination) =
      ap (λ (g : Frame). parse_ipv4_endpoints g.payload) (sym same) ∙ ends in
    let known : parse_ipv4_endpoints other_packet ≡ ok (0x0a420003, 0xc0a85805) =
      unfold parse_ipv4_endpoints be in refl in
    let from : source ≡ 0x0a420003 = ground arith in rw from (unfold format_addr4 bytes_eq in refl)

-- After the packet the router gets one of the other Device, eight minutes later, and sends a reply.
abbrev meanwhile : List (Event ℕ)
meanwhile =
    came all_up (codes "n1") other_bytes 480000000000 480000000000
    ∷ tunnelled all_up answer 490000000000
    ∷ []

meanwhile-Between : All (Between number_float insertion_sorter 0x0a420002 8 600000000008) meanwhile
unfolding Between
meanwhile-Between = ((omega arith, other-Elsewhere), ((omega arith, omega arith), tt))

abbrev owner_later : Router ℕ
owner_later =
    handle_all number_float insertion_sorter
      (remember_reverse (router_at (codes "n2")) 0x0a420002 site_path 8) meanwhile

owner_later_config : owner_later.config ≡ site_config
unfolding handle_all step handle_mesh_data unmarshal_frame validate_frame_for_node validate_basic
    check_hops check_ends bytes_eq has be check_path check_forward equal_strings prefix_holds
    route_is route_for transit_path parse_ipv4_endpoints parse_prefix4 masked contains route_prefix
    matches policy_valid remember_reverse arrive handle_tun_packet reply reverse_for forget_reverse
    format_addr4 lookup insert drop_expired expired
owner_later_config = refl

reply_returns_example :
    (sent : Bytes) × ((handle_tun_packet number_float insertion_sorter all_up owner_later answer
        600000000008).1
      ≡ ok (send (codes "n1") sent))
    × (unmarshal_frame sent
        ≡ ok (
            first_frame
              (codes "p1")
              (codes "n2")
              (reverse (codes "n1" ∷ codes "n2" ∷ []))
              true
              answer))
reply_returns_example =
    reply_returns number_float insertion_sorter all_up all_up (router_at (codes "n2"))
      (remember_reverse (router_at (codes "n2")) 0x0a420002 site_path 8) (codes "n1") arriving_bytes
      packet 7 8 arriving 0x0a420002 0xc0a85805 meanwhile answer 0xc0a85805 600000000008
      owner_writes arriving_reads refl (unfold parse_ipv4_endpoints be in refl) meanwhile-Between
      (omega arith) (rw owner_later_config refl)
      (rw owner_later_config (unfold prefix_holds parse_prefix4 contains in refl))
      (rw owner_later_config (unfold policy_valid in refl)) (unfold parse_ipv4_endpoints be in refl)
      (omega arith) refl

ingress_sends :
    (handle_tun_packet number_float insertion_sorter all_up (router_at (codes "n1")) packet 7).1
    ≡ ok (send (codes "n2") arriving_bytes)
unfolding handle_tun_packet parse_ipv4_endpoints be policy_valid prefix_holds parse_prefix4 contains
    originate choose_for send_frame marshal_frame validate_basic check_hops check_ends has put_be
    route_for matches route_prefix masked source_paths choose_path select find_current candidates_of
    viable_path path_score bytes_eq bytes_lt lookup insert
ingress_sends = refl

handle_tun_packet-Originated_example :
    (source : ℕ) × (destination : ℕ) × (parse_ipv4_endpoints packet ≡ ok (source, destination))
    × (policy_valid (router_at (codes "n1")).config (7 / 1000000000) ≡ true)
    × Originated number_float insertion_sorter all_up
        (router_at (codes "n1"))
        packet
        7
        destination
        (send (codes "n2") arriving_bytes)
handle_tun_packet-Originated_example =
    handle_tun_packet-Originated number_float insertion_sorter all_up (router_at (codes "n1"))
      packet 7 (send (codes "n2") arriving_bytes) ingress_sends
