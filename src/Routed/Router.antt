-- ===== src/Routed/Router.antt =====
-- internal/routed/router.go: the router of a Node. `mesh.Send` and `writer.WritePacket` stand at the
-- end of the handlers, which return what they return: a handler answers the action that is left to
-- do. The logger is left out. `now` and `later` are what `r.now()` answers, in nanoseconds. A handler
-- takes the mutex more than once (for the configuration, for the reverse paths, for a selection); it
-- is modelled as run from its start to its end with no other method in between.
pub mod Relay
pub mod Reverse
pub mod Memory
pub mod Events
pub mod Replies
pub mod Origin
pub mod Update
pub mod Status
pub mod Delivery
mod Tests
use mathlib.Core.List.{reverse}
use bpc.Base.{
  ℕ, ◌+◌, ◌-◌, ◌/◌, Bool, true, false, not, ◌&&◌, ◌||◌, List, [], ◌∷◌, ◌++◌, ltb, leb, ◌==◌,
  if◌then◌else◌, length, get_or, Bytes, bytes_eq, has, Option, none, some, Result, ok, err, ◌>>=◌,
  ◌>>◌, fail_if, map_err,
}
use bpc.Base.Float.{Float}
use bpc.Base.Net.{format_addr4}
use bpc.Base.Sort.{Sorter}
use bpc.Base.Dict.{Dict, lookup, insert, delete}
use bpc.Routed.Frame.{Frame, FrameError, marshal_frame, unmarshal_frame}
use bpc.Routed.Config.{
  ConfigError, RoutePath, Route, RoutingConfig, policy_valid, validate_config, route_for,
  source_paths,
}
use bpc.Routed.Transit.{TransitError, parse_ipv4_endpoints, prefix_holds, validate_frame_for_node}
use bpc.Routed.Selection.{
  MeshView, PathAvailability, RouteSelection, new_selection, route_key, choose_path,
}

-- 10 minutes.
abbrev pub reverse_path_ttl : ℕ
reverse_path_ttl = 600000000000

pub record ReversePath (F : Type 0) : Type 0 where
  pub path : RoutePath F
  pub last_seen : ℕ

pub record Router (F : Type 0) : Type 0 where
  pub local_node_id : Bytes
  pub config : RoutingConfig F
  pub selections : Dict RouteSelection
  pub reverse_paths : Dict (ReversePath F)

pub data RouterError : Type 0 where
  no_local_node invalid_next_hop unhealthy_next_hop policy_expired : RouterError
  no_reverse_path invalid_reverse_path not_a_site_route no_healthy_path : RouterError
  bad_config : ConfigError → RouterError
  bad_frame : FrameError → RouterError
  refused : TransitError → RouterError

-- What is left to do: `mesh.Send(peer, raw)` or `writer.WritePacket(packet)`.
pub data Action : Type 0 where
  send : Bytes → Bytes → Action
  write : Bytes → Action

pub new_router : {F : Type 0} → Bytes → RoutingConfig F → Result RouterError (Router F)
new_router local_node_id config = do
  fail_if (length local_node_id == 0) no_local_node
  map_err bad_config (validate_config config local_node_id)
  ok record { local_node_id = local_node_id; config = config; selections = []; reverse_paths = [] }

pub path_ids : {F : Type 0} → List (RoutePath F) → List Bytes
path_ids [] = []
path_ids (p ∷ ps) = p.id ∷ path_ids ps

keep_ids : List Bytes → Dict PathAvailability → Dict PathAvailability
keep_ids valid [] = []
keep_ids valid ((id, a) ∷ m) =
    let rest = keep_ids valid m in if has id valid then (id, a) ∷ rest else rest

-- The loop over the selections in `UpdateConfig`.
prune : List Bytes → Dict RouteSelection → Dict RouteSelection
unfolding keep_ids
prune valid [] = []
prune valid ((key, state) ∷ m) =
    let rest = prune valid m in
    let kept = record state { availability = keep_ids valid state.availability } in
    if length state.current_id == 0 || has state.current_id valid then (key, kept) ∷ rest else rest

pub update_config :
    {F : Type 0} → Router F → RoutingConfig F → Router F × Result RouterError (Unit {0})
unfolding prune path_ids
update_config r config = elim (validate_config config r.local_node_id) [
  | err e ↦ (r, err (bad_config e))
  | ok done ↦ (
    record r {
      config = config;
      selections = prune (path_ids (config.paths ++ config.transit_paths)) r.selections;
    },
    ok tt,
  )
]

-- `now.Sub(entry.LastSeen) > reversePathTTL`
expired : {F : Type 0} → ReversePath F → ℕ → Bool
expired entry now = ltb (entry.last_seen + reverse_path_ttl) now

drop_expired : {F : Type 0} → ℕ → Dict (ReversePath F) → Dict (ReversePath F)
unfolding expired
drop_expired now [] = []
drop_expired now ((key, entry) ∷ m) =
    let rest = drop_expired now m in if expired entry now then rest else (key, entry) ∷ rest

pub remember_reverse : {F : Type 0} → Router F → ℕ → RoutePath F → ℕ → Router F
unfolding drop_expired
remember_reverse r device path now = record r {
  reverse_paths =
      insert (format_addr4 device) record { path = path; last_seen = now }
        (drop_expired now r.reverse_paths);
}

forget_reverse : {F : Type 0} → Router F → ℕ → Router F
forget_reverse r device = record r { reverse_paths = delete (format_addr4 device) r.reverse_paths }

pub reverse_for : {F : Type 0} → Router F → ℕ → ℕ → Router F × Option (RoutePath F)
unfolding expired forget_reverse
reverse_for r device now = elim (lookup (format_addr4 device) r.reverse_paths) [
  | none ↦ (forget_reverse r device, none)
  | some entry ↦ if expired entry now then (forget_reverse r device, none) else (
    record r {
      reverse_paths =
          insert (format_addr4 device) record { path = entry.path; last_seen = now }
            r.reverse_paths;
    },
    some entry.path,
  )
]

pub send_frame : {F : Type 0} → MeshView F → Frame → Result RouterError Action
send_frame mesh frame = do
  fail_if (leb frame.hop_index 0 || leb (length frame.hops) frame.hop_index) invalid_next_hop
  let next = get_or frame.hops frame.hop_index []
  fail_if (not (mesh.can_send next)) unhealthy_next_hop
  raw ← map_err bad_frame (marshal_frame frame)
  ok (send next raw)

-- The frame of a packet from the tunnel device, at its first hop.
pub first_frame : Bytes → Bytes → List Bytes → Bool → Bytes → Frame
first_frame path_id owner hops is_return packet = record {
  path_id = path_id;
  owner_node_id = owner;
  hops = hops;
  hop_index = 1;
  is_return = is_return;
  payload = packet;
}

-- The branch of `HandleTunPacket` for a packet to a Device, at a site router.
pub reply :
    {F : Type 0} → MeshView F → Router F → Bytes → ℕ → ℕ → Router F × Result RouterError Action
unfolding first_frame
reply mesh r packet destination now =
    let (r', found) = reverse_for r destination now in
    elim found [
      | none ↦ (r', err no_reverse_path)
      | some forward ↦
          let hops = reverse forward.hops in
          (
            r',
            do
              fail_if (ltb (length hops) 2 || not (bytes_eq (get_or hops 0 []) r.local_node_id))
                  invalid_reverse_path
              send_frame mesh (first_frame forward.id r.local_node_id hops true packet),
          )
    ]

module _ (fl : Float) (sorter : Sorter) (mesh : MeshView (fl.F)) where
  open fl use {F}

  -- `choosePath` with the map of selections: the state of the route is made where it is missing.
  pub choose_for : Router F → Route → List (RoutePath F) → ℕ → Router F × Option (RoutePath F)
  choose_for r route paths now =
      let state : RouteSelection = elim (lookup (route_key route) r.selections) [
        | none ↦ new_selection
        | some s ↦ s
      ] in
      let (state', chosen) = choose_path fl sorter mesh r.local_node_id state paths now in
      (record r { selections = insert (route_key route) state' r.selections }, chosen)

  -- The rest of `HandleTunPacket`, for a packet to a site.
  pub originate : Router F → Bytes → ℕ → ℕ → Router F × Result RouterError Action
  unfolding first_frame
  originate r packet destination now = elim (route_for sorter r.config destination) [
    | none ↦ (r, err not_a_site_route)
    | some route ↦
        let paths = source_paths fl sorter r.config r.local_node_id route in
        let (r', chosen) = choose_for r route paths now in
        elim chosen [
          | none ↦ (r', err no_healthy_path)
          | some path ↦
              (r', send_frame mesh (first_frame path.id route.owner_node_id path.hops false packet))
        ]
  ]

  pub handle_tun_packet : Router F → Bytes → ℕ → Router F × Result RouterError Action
  handle_tun_packet r packet now = elim (parse_ipv4_endpoints packet) [
    | err e ↦ (r, err (refused e))
    | ok (source, destination) ↦
        if not (policy_valid r.config (now / 1000000000))
        then (r, err policy_expired)
        else if r.config.local_site_router && prefix_holds r.config.overlay_subnet destination
        then reply mesh r packet destination now
        else originate r packet destination now
  ]

-- The branch of `HandleMeshData` where the frame has come to its last hop.
pub arrive :
    {F : Type 0} → Router F → Frame → RoutePath F → ℕ → Router F × Result RouterError Action
arrive r frame path later =
    if frame.is_return
    then (r, ok (write frame.payload))
    else elim (parse_ipv4_endpoints frame.payload) [
      | err e ↦ (r, err (refused e))
      | ok (source, destination) ↦ (remember_reverse r source path later, ok (write frame.payload))
    ]

pub handle_mesh_data :
    {F : Type 0}
    → Sorter
    → MeshView F
    → Router F
    → Bytes
    → Bytes
    → ℕ
    → ℕ
    → Router F × Result RouterError Action
handle_mesh_data sorter mesh r peer_id raw now later = elim (unmarshal_frame raw) [
  | err e ↦ (r, err (bad_frame e))
  | ok frame ↦
      if not (policy_valid r.config (now / 1000000000))
      then (r, err policy_expired)
      else elim (validate_frame_for_node sorter frame r.local_node_id peer_id r.config) [
        | err e ↦ (r, err (refused e))
        | ok path ↦
            if frame.hop_index == length frame.hops - 1
            then arrive r frame path later
            else (r, send_frame mesh (record frame { hop_index = frame.hop_index + 1 }))
      ]
]
