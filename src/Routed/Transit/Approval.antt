-- ===== src/Routed/Transit/Approval.antt =====
-- What `ValidateFrameForNode` of internal/routed/frame.go lets through.
use mathlib.Core.List.{reverse}
use bpc.Base.{
  ℕ, ◌-◌, ◌<◌, true, false, List, [], ◌∷◌, length, get_or, get_elem?, get_elem?-get_or, Bytes,
  if◌then◌else◌, some, ok, ◌≡◌, ◌↔◌, refl, arith, Option-cases, Result-cases, Bool-cases, inl, inr,
  bytes_eq_iff,
}
use bpc.Base.Sort.{Sorter}
use bpc.Base.Encoding.{trim_space}
use bpc.Routed.Frame.{Frame, validate_basic}
use bpc.Routed.Frame.Valid.{IsValid, validate_basic_iff}
use bpc.Routed.Config.{RoutingConfig, RoutePath, Route, transit_path, route_for}
use bpc.Routed.Transit.{
  parse_ipv4_endpoints, equal_strings, prefix_holds, route_is, check_return, check_forward,
  check_path, validate_frame_for_node,
}

equal_strings_iff : (xs ys : List Bytes) → (equal_strings xs ys ≡ true) ↔ (xs ≡ ys)
unfolding equal_strings
equal_strings_iff [] [] = (λ h. refl, λ e. refl)
equal_strings_iff [] (y ∷ ys) = (λ h. cc, λ e. cc)
equal_strings_iff (x ∷ xs) [] = (λ h. cc, λ e. cc)
equal_strings_iff (x ∷ xs) (y ∷ ys) =
    let head = bytes_eq_iff x y in
    let tail = equal_strings_iff xs ys in (λ h. ground arith, λ e. ground arith)

-- An IPv4 packet has at least its header.
pub parse_ipv4-length :
    (packet : Bytes) (ends : ℕ × ℕ) → parse_ipv4_endpoints packet ≡ ok ends → 0 < length packet
unfolding parse_ipv4_endpoints
parse_ipv4-length packet ends h = ground arith

-- The route that the Node itself would choose for the address is the path's.
pub record IsRouteOf {F : Type 0} (sorter : Sorter) (c : RoutingConfig F) (addr : ℕ) (owner : Bytes)
    (path : RoutePath F) : Type 0 where
  pub route : Route
  pub chosen : route_for sorter c addr ≡ some route
  pub owned : route.owner_node_id ≡ owner
  pub same_cidr : route.cidr ≡ path.cidr

route_is_iff :
    {F : Type 0} (sorter : Sorter) (c : RoutingConfig F) (addr : ℕ) (owner : Bytes)
    (path : RoutePath F)
    → (route_is (route_for sorter c addr) owner path ≡ true) ↔ IsRouteOf sorter c addr owner path
unfolding route_is
route_is_iff sorter c addr owner path = elim (Option-cases (route_for sorter c addr)) [
  | inl e ↦ (λ h. absurd (ground arith), λ r. absurd (ground (arith, r.chosen)))
  | inr (route, e) ↦
      let owners = bytes_eq_iff route.owner_node_id owner in
      let cidrs = bytes_eq_iff route.cidr path.cidr in
      (
        λ h. record { route = route; chosen = e; owned = ground arith; same_cidr = ground arith },
        λ r.
            let same : r.route ≡ route = ground (arith, r.chosen) in
            rw e (ground (arith, r.owned, r.same_cidr, same)),
      )
]

-- The packet of an approved frame: forward from the overlay into the path's CIDR, back from a source
-- that is routed to the owner into the overlay.
pub data Direction {F : Type 0} (sorter : Sorter) (c : RoutingConfig F) (f : Frame)
    (path : RoutePath F) (source destination : ℕ) : Type 0 where
  forth :
      f.is_return ≡ false
      → prefix_holds c.overlay_subnet source ≡ true
      → prefix_holds path.cidr destination ≡ true
      → IsRouteOf sorter c destination f.owner_node_id path
      → Direction sorter c f path source destination
  back :
      f.is_return ≡ true
      → 0 < length (trim_space c.overlay_subnet)
      → prefix_holds c.overlay_subnet destination ≡ true
      → IsRouteOf sorter c source f.owner_node_id path
      → Direction sorter c f path source destination

-- A frame on a path that the Controller approved, at the hop and from the sender that it names.
pub record Approved {F : Type 0} (sorter : Sorter) (c : RoutingConfig F) (f : Frame)
    (local sender : Bytes) (path : RoutePath F) : Type 0 where
  pub valid : IsValid f
  pub current : get_elem? f.hops f.hop_index ≡ some local
  pub previous : get_elem? f.hops (f.hop_index - 1) ≡ some sender
  pub known : transit_path c f.path_id ≡ some path
  pub owner : path.owner_node_id ≡ f.owner_node_id
  pub hops : f.hops ≡ (if f.is_return then reverse path.hops else path.hops)
  pub source : ℕ
  pub destination : ℕ
  pub endpoints : parse_ipv4_endpoints f.payload ≡ ok (source, destination)
  pub direction : Direction sorter c f path source destination

check_return_iff :
    {F : Type 0} (sorter : Sorter) (c : RoutingConfig F) (f : Frame) (path : RoutePath F) (s d : ℕ)
    → (check_return sorter c f path s d ≡ ok path) ↔ (
        (0 < length (trim_space c.overlay_subnet))
        × (prefix_holds c.overlay_subnet d ≡ true)
        × IsRouteOf sorter c s f.owner_node_id path)
unfolding check_return
check_return_iff sorter c f path s d =
    let r = route_is_iff sorter c s f.owner_node_id path in
    (λ h. (ground arith, ground arith, r.0 (ground arith)), λ t. ground (arith, r.1 t.2))

check_forward_iff :
    {F : Type 0} (sorter : Sorter) (c : RoutingConfig F) (f : Frame) (path : RoutePath F) (s d : ℕ)
    → (check_forward sorter c f path s d ≡ ok path) ↔ (
        (prefix_holds c.overlay_subnet s ≡ true)
        × (prefix_holds path.cidr d ≡ true)
        × IsRouteOf sorter c d f.owner_node_id path)
unfolding check_forward
check_forward_iff sorter c f path s d =
    let r = route_is_iff sorter c d f.owner_node_id path in
    (λ h. (ground arith, ground arith, r.0 (ground arith)), λ t. ground (arith, r.1 t.2))

-- Any path that the checks return is the one they were given.
check_path_same :
    {F : Type 0} (sorter : Sorter) (c : RoutingConfig F) (f : Frame) (path path' : RoutePath F)
    → check_path sorter c f path ≡ ok path'
    → path ≡ path'
unfolding check_path check_return check_forward
check_path_same sorter c f path path' h = elim (Result-cases (parse_ipv4_endpoints f.payload)) [
  | inl (ends, e) ↦ ground arith
  | inr (x, e) ↦ ground arith
]

-- The part of `Approved` that `check_path` decides.
record PathOk {F : Type 0} (sorter : Sorter) (c : RoutingConfig F) (f : Frame) (path : RoutePath F)
    : Type 0 where
  owner : path.owner_node_id ≡ f.owner_node_id
  hops : f.hops ≡ (if f.is_return then reverse path.hops else path.hops)
  source : ℕ
  destination : ℕ
  endpoints : parse_ipv4_endpoints f.payload ≡ ok (source, destination)
  direction : Direction sorter c f path source destination

ends-Direction :
    {F : Type 0} (sorter : Sorter) (c : RoutingConfig F) (f : Frame) (path : RoutePath F) (s d : ℕ)
    → (if f.is_return then check_return sorter c f path s d else check_forward sorter c f path s d)
      ≡ ok path
    → Direction sorter c f path s d
ends-Direction sorter c f path s d h = elim (Bool-cases f.is_return) [
  | inl e ↦ let t = (check_return_iff sorter c f path s d).0 (ground arith) in back e t.0 t.1 t.2
  | inr e ↦ let t = (check_forward_iff sorter c f path s d).0 (ground arith) in forth e t.0 t.1 t.2
]

Direction-ends :
    {F : Type 0} (sorter : Sorter) (c : RoutingConfig F) (f : Frame) (path : RoutePath F) (s d : ℕ)
    → Direction sorter c f path s d
    → (if f.is_return then check_return sorter c f path s d else check_forward sorter c f path s d)
      ≡ ok path
Direction-ends sorter c f path s d (forth e overlay cidr route) =
    ground (arith, (check_forward_iff sorter c f path s d).1 (overlay, cidr, route))
Direction-ends sorter c f path s d (back e named overlay route) =
    ground (arith, (check_return_iff sorter c f path s d).1 (named, overlay, route))

check_path-PathOk :
    {F : Type 0} (sorter : Sorter) (c : RoutingConfig F) (f : Frame) (path : RoutePath F)
    → check_path sorter c f path ≡ ok path
    → PathOk sorter c f path
unfolding check_path
check_path-PathOk sorter c f path h =
    let owners = bytes_eq_iff path.owner_node_id f.owner_node_id in
    let same = equal_strings_iff f.hops (if f.is_return then reverse path.hops else path.hops) in
    elim (Result-cases (parse_ipv4_endpoints f.payload)) [
      | inl (ends, e) ↦ record {
        owner = ground arith;
        hops = ground arith;
        source = ends.0;
        destination = ends.1;
        endpoints = e;
        direction = ends-Direction sorter c f path ends.0 ends.1 (ground arith);
      }
      | inr (x, e) ↦ absurd (ground arith)
    ]

PathOk-check_path :
    {F : Type 0} (sorter : Sorter) (c : RoutingConfig F) (f : Frame) (path : RoutePath F)
    → PathOk sorter c f path
    → check_path sorter c f path ≡ ok path
unfolding check_path
PathOk-check_path sorter c f path k =
    let owners = (bytes_eq_iff path.owner_node_id f.owner_node_id).1 k.owner in
    let expected = if f.is_return then reverse path.hops else path.hops in
    let same = (equal_strings_iff f.hops expected).1 k.hops in
    rw (owners, same, k.endpoints)
      (Direction-ends sorter c f path k.source k.destination k.direction)

validate-Approved :
    {F : Type 0} (sorter : Sorter) (f : Frame) (local sender : Bytes) (c : RoutingConfig F)
    (path : RoutePath F)
    → validate_frame_for_node sorter f local sender c ≡ ok path
    → Approved sorter c f local sender path
unfolding validate_frame_for_node
validate-Approved {F} sorter f local sender c path h = elim (Result-cases (validate_basic f)) [
  | inr (x, e) ↦ absurd (ground arith)
  | inl (u, e) ↦ elim (Option-cases (transit_path c f.path_id)) [
    | inl missing ↦ absurd (ground arith)
    | inr (found, known) ↦
        let checked : check_path sorter c f found ≡ ok path = ground arith in
        let same = check_path_same sorter c f found path checked in
        let k = check_path-PathOk sorter c f path (rw same at checked) in
        let valid = (validate_basic_iff f).0 e in
        let here = get_elem?-get_or f.hops f.hop_index [] (omega (arith, valid.receiver)) in
        let there = get_elem?-get_or f.hops (f.hop_index - 1) [] (omega (arith, valid.receiver)) in
        let at_local = bytes_eq_iff (get_or f.hops f.hop_index []) local in
        let from_sender = bytes_eq_iff (get_or f.hops (f.hop_index - 1) []) sender in
        record {
          valid = valid;
          current = ground (arith, here, at_local);
          previous = ground (arith, there, from_sender);
          known = cc (known, same);
          owner = k.owner;
          hops = k.hops;
          source = k.source;
          destination = k.destination;
          endpoints = k.endpoints;
          direction = k.direction;
        }
  ]
]

Approved-validate :
    {F : Type 0} (sorter : Sorter) (f : Frame) (local sender : Bytes) (c : RoutingConfig F)
    (path : RoutePath F)
    → Approved sorter c f local sender path
    → validate_frame_for_node sorter f local sender c ≡ ok path
unfolding validate_frame_for_node
Approved-validate sorter f local sender c path a =
    let here = get_elem?-get_or f.hops f.hop_index [] (omega (arith, a.valid.receiver)) in
    let there = get_elem?-get_or f.hops (f.hop_index - 1) [] (omega (arith, a.valid.receiver)) in
    let at_local =
      (bytes_eq_iff (get_or f.hops f.hop_index []) local).1 (ground (arith, here, a.current)) in
    let from_sender =
      (bytes_eq_iff (get_or f.hops (f.hop_index - 1) []) sender).1
        (ground (arith, there, a.previous)) in
    let k : PathOk sorter c f path = record {
      owner = a.owner;
      hops = a.hops;
      source = a.source;
      destination = a.destination;
      endpoints = a.endpoints;
      direction = a.direction;
    } in
    rw ((validate_basic_iff f).1 a.valid, at_local, from_sender, a.known)
      (PathOk-check_path sorter c f path k)

-- A Node accepts a frame on a path exactly if the frame is approved: it is valid, it stands at this
-- Node and came from the authenticated sender before it, its path is one of the Controller's transit
-- paths with the same owner and hop list (reversed on the way back), and its IPv4 packet goes from
-- the overlay into the path's CIDR, or back from there, by the route that the Node itself chooses.
pub validate_frame_iff :
    {F : Type 0} (sorter : Sorter) (f : Frame) (local sender : Bytes) (c : RoutingConfig F)
    (path : RoutePath F)
    → (validate_frame_for_node sorter f local sender c ≡ ok path)
      ↔ Approved sorter c f local sender path
validate_frame_iff sorter f local sender c path =
    (validate-Approved sorter f local sender c path, Approved-validate sorter f local sender c path)
