-- ===== src/Routed/Transit.antt =====
-- internal/routed/frame.go: `ParseIPv4Endpoints` and `ValidateFrameForNode`, the check that a Node
-- makes of every frame that it receives.
pub mod Approval
mod Tests
use mathlib.Core.List.{reverse}
use bpc.Base.{
  ℕ, ◌+◌, ◌-◌, ◌*◌, ◌/◌, ◌%◌, Bool, true, false, not, ◌&&◌, ◌||◌, List, [], ◌∷◌, ltb, ◌==◌,
  if◌then◌else◌, length, get_or, take, drop, Bytes, bytes_eq, be, Option, none, some, Result, ok,
  err, ◌>>=◌, ◌>>◌, fail_if, map_err,
}
use bpc.Base.Net.{contains, parse_prefix4}
use bpc.Base.Encoding.{trim_space}
use bpc.Base.Sort.{Sorter}
use bpc.Routed.Frame.{Frame, FrameError, validate_basic}
use bpc.Routed.Config.{RoutingConfig, RoutePath, Route, transit_path, route_for}

pub data TransitError : Type 0 where
  basic : FrameError → TransitError
  not_ipv4 bad_header_length bad_total_length : TransitError
  wrong_hop wrong_sender unknown_path wrong_owner wrong_hops : TransitError
  no_overlay return_outside_overlay return_source_unowned : TransitError
  source_outside_overlay destination_outside_route wrong_route : TransitError

-- Source and destination of an IPv4 packet.
unfoldable pub parse_ipv4_endpoints : Bytes → Result TransitError (ℕ × ℕ)
parse_ipv4_endpoints packet = do
  fail_if (ltb (length packet) 20 || not (get_or packet 0 0 / 16 == 4)) not_ipv4
  let header_len = get_or packet 0 0 % 16 * 4
  fail_if (ltb header_len 20 || ltb (length packet) header_len) bad_header_length
  let total_len = be (take 2 (drop 2 packet))
  fail_if (ltb total_len header_len || ltb (length packet) total_len) bad_total_length
  ok (be (take 4 (drop 12 packet)), be (take 4 (drop 16 packet)))

unfoldable pub equal_strings : List Bytes → List Bytes → Bool
equal_strings [] [] = true
equal_strings [] (y ∷ ys) = false
equal_strings (x ∷ xs) [] = false
equal_strings (x ∷ xs) (y ∷ ys) = bytes_eq x y && equal_strings xs ys

-- Whether a text is an IPv4 prefix that holds the address.
unfoldable pub prefix_holds : Bytes → ℕ → Bool
prefix_holds text addr = elim (parse_prefix4 text) [ none ↦ false | some p ↦ contains p addr ]

-- Whether the route of an address is the path's: its owner and its CIDR.
unfoldable pub route_is : {F : Type 0} → Option Route → Bytes → RoutePath F → Bool
route_is none owner path = false
route_is (some r) owner path = bytes_eq r.owner_node_id owner && bytes_eq r.cidr path.cidr

pub check_return :
    {F : Type 0}
    → Sorter
    → RoutingConfig F
    → Frame
    → RoutePath F
    → ℕ
    → ℕ
    → Result TransitError (RoutePath F)
check_return sorter c frame path source destination = do
  fail_if (length (trim_space c.overlay_subnet) == 0) no_overlay
  fail_if (not (prefix_holds c.overlay_subnet destination)) return_outside_overlay
  fail_if (not (route_is (route_for sorter c source) frame.owner_node_id path))
      return_source_unowned
  ok path

unfoldable pub check_forward :
    {F : Type 0}
    → Sorter
    → RoutingConfig F
    → Frame
    → RoutePath F
    → ℕ
    → ℕ
    → Result TransitError (RoutePath F)
check_forward sorter c frame path source destination = do
  fail_if (not (prefix_holds c.overlay_subnet source)) source_outside_overlay
  fail_if (not (prefix_holds path.cidr destination)) destination_outside_route
  fail_if (not (route_is (route_for sorter c destination) frame.owner_node_id path)) wrong_route
  ok path

unfoldable pub check_path :
    {F : Type 0}
    → Sorter
    → RoutingConfig F
    → Frame
    → RoutePath F
    → Result TransitError (RoutePath F)
check_path sorter c frame path = do
  fail_if (not (bytes_eq path.owner_node_id frame.owner_node_id)) wrong_owner
  let expected_hops = if frame.is_return then reverse path.hops else path.hops
  fail_if (not (equal_strings frame.hops expected_hops)) wrong_hops
  ends ← parse_ipv4_endpoints frame.payload
  if frame.is_return
      then check_return sorter c frame path ends.0 ends.1
      else check_forward sorter c frame path ends.0 ends.1

unfoldable pub validate_frame_for_node :
    {F : Type 0}
    → Sorter
    → Frame
    → Bytes
    → Bytes
    → RoutingConfig F
    → Result TransitError (RoutePath F)
validate_frame_for_node sorter frame local_node_id sender_peer_id c = do
  map_err basic (validate_basic frame)
  fail_if (not (bytes_eq (get_or frame.hops frame.hop_index []) local_node_id)) wrong_hop
  fail_if (not (bytes_eq (get_or frame.hops (frame.hop_index - 1) []) sender_peer_id)) wrong_sender
  elim (transit_path c frame.path_id) [
    | none ↦ err unknown_path
    | some path ↦ check_path sorter c frame path
  ]
