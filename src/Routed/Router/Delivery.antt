-- ===== src/Routed/Router/Delivery.antt =====
-- The way of a frame of internal/routed/router.go over all its hops, from Node to Node.
mod Tests
use mathlib.Core.List.{reverse}
use bpc.Base.{
  ℕ, zero, suc, ◌+◌, ◌-◌, ◌/◌, ◌<◌, ◌≤◌, some, ◌==◌, if◌then◌else◌, true, List, [], length, get_or,
  get_elem?-get_or, Bytes, All, All-get_or, Result, ok, ◌>>=◌, Bool-cases, inl, inr, ◌≡◌, refl, sym,
  ◌∙◌, ap, arith,
}
use bpc.Base.Sort.{Sorter}
use bpc.Routed.Frame.{Frame, unmarshal_frame}
use bpc.Routed.Config.{RoutePath, RoutingConfig, policy_valid, transit_path}
use bpc.Routed.Frame.Valid.{IsValid, origin, end}
use bpc.Routed.Transit.{parse_ipv4_endpoints}
use bpc.Routed.Transit.Approval.{Approved, Direction, forth, back, validate_frame_iff}
use bpc.Routed.Selection.{MeshView}
use bpc.Routed.Router.{
  Action, send, write, RouterError, Router, arrive, send_frame, handle_mesh_data,
}
use bpc.Routed.Router.Relay.{onward, Sent-send_frame, handle_mesh_data-accepted}

-- The frame at another hop.
abbrev pub frame_at : Frame → ℕ → Frame
frame_at f i = record f { hop_index = i }

abbrev pub hop_of : Frame → ℕ → Bytes
hop_of f i = get_or f.hops i []

IsValid-frame_at :
    (f : Frame) (i : ℕ) → IsValid f → 0 < i → i < length f.hops → IsValid (frame_at f i)
IsValid-frame_at f i v pos h = record {
  path_size = v.path_size;
  owner_size = v.owner_size;
  hop_count = v.hop_count;
  receiver = (pos, h);
  hop_sizes = v.hop_sizes;
  no_loop = v.no_loop;
  owner_end = elim v.owner_end [ origin b e ↦ origin b e | end b e ↦ end b e ];
  payload_size = v.payload_size;
}

Direction-frame_at :
    {F : Type 0} (sorter : Sorter) (c : RoutingConfig F) (f : Frame) (path : RoutePath F)
    (s d i : ℕ)
    → Direction sorter c f path s d
    → Direction sorter c (frame_at f i) path s d
Direction-frame_at sorter c f path s d i (forth e overlay cidr route) = forth e overlay cidr route
Direction-frame_at sorter c f path s d i (back e named overlay route) = back e named overlay route

module _ {F : Type 0} (sorter : Sorter) (node : Bytes → Router F) (mesh : Bytes → MeshView F)
    (now : ℕ) where
  -- What a Node has sent is handled by the Node that it is sent to, for at most so many Nodes. The
  -- result names the last Node that acted.
  unfoldable pub travel : ℕ → Bytes → Action → Result RouterError (Bytes × Action)
  travel zero sender a = ok (sender, a)
  travel (suc n) sender (write packet) = ok (sender, write packet)
  travel (suc n) sender (send next raw) =
      (handle_mesh_data sorter (mesh next) (node next) sender raw now now).1 >>= λ a.
      travel n next a

  -- The Node at a hop: it runs under its own id with a configuration of its own, whose policy has
  -- not expired and which has the frame's path and lets the packet pass on it; its link to the next
  -- hop, if there is one, is up.
  pub record IsStation (f : Frame) (source destination i : ℕ) : Type 0 where
    pub runs : (node (hop_of f i)).local_node_id ≡ hop_of f i
    pub lease : policy_valid (node (hop_of f i)).config (now / 1000000000) ≡ true
    pub path : RoutePath F
    pub known : transit_path (node (hop_of f i)).config f.path_id ≡ some path
    pub owner : path.owner_node_id ≡ f.owner_node_id
    pub hops : f.hops ≡ (if f.is_return then reverse path.hops else path.hops)
    pub direction : Direction sorter (node (hop_of f i)).config f path source destination
    pub up : i + 1 < length f.hops → (mesh (hop_of f i)).can_send (hop_of f (i + 1)) ≡ true

  arrive-ok :
      (c : RoutingConfig F) (r : Router F) (f : Frame) (local sender : Bytes) (path : RoutePath F)
      → Approved sorter c f local sender path
      → (arrive r f path now).1 ≡ ok (write f.payload)
  unfolding arrive
  arrive-ok c r f local sender path a = ground (arith, a.endpoints)

  -- The Node approves the frame that comes to it from the hop before.
  station-Approved :
      (f : Frame) (source destination i : ℕ) (s : IsStation f source destination i)
      → IsValid f
      → 0 < i
      → i < length f.hops
      → parse_ipv4_endpoints f.payload ≡ ok (source, destination)
      → Approved sorter
          (node (hop_of f i)).config
          (frame_at f i)
          (hop_of f i)
          (hop_of f (i - 1))
          s.path
  station-Approved f source destination i s v pos inside ends = record {
    valid = IsValid-frame_at f i v pos inside;
    current = get_elem?-get_or f.hops i [] inside;
    previous = get_elem?-get_or f.hops (i - 1) [] (omega arith);
    known = s.known;
    owner = s.owner;
    hops = s.hops;
    source = source;
    destination = destination;
    endpoints = ends;
    direction =
        Direction-frame_at sorter (node (hop_of f i)).config f s.path source destination i
          s.direction;
  }

  -- One Node's part.
  handled :
      (c : RoutingConfig F) (f : Frame) (local sender raw : Bytes) (path : RoutePath F)
      → (node local).config ≡ c
      → (node local).local_node_id ≡ local
      → unmarshal_frame raw ≡ ok f
      → policy_valid c (now / 1000000000) ≡ true
      → Approved sorter c f local sender path
      → (handle_mesh_data sorter (mesh local) (node local) sender raw now now) ≡ (
          if f.hop_index == length f.hops - 1
          then arrive (node local) f path now
          else (node local, send_frame (mesh local) (onward f)))
  handled c f local sender raw path configured runs e lease a =
      handle_mesh_data-accepted sorter (mesh local) (node local) sender raw now now f path e
        (rw configured lease)
        (rw (runs, configured) ((validate_frame_iff sorter f local sender c path).1 a))

  travel-write :
      (n : ℕ) (sender packet : Bytes) → travel n sender (write packet) ≡ ok (sender, write packet)
  unfolding travel
  travel-write zero sender packet = refl
  travel-write (suc n) sender packet = refl

  -- From the Node at hop `i` on, with `n` Nodes left.
  arrives_from :
      (f : Frame) (source destination n i : ℕ) (raw : Bytes)
      → i + n ≡ length f.hops
      → 0 < i
      → 0 < n
      → IsValid f
      → unmarshal_frame raw ≡ ok (frame_at f i)
      → parse_ipv4_endpoints f.payload ≡ ok (source, destination)
      → ((j : ℕ) → i ≤ j → j < length f.hops → IsStation f source destination j)
      → travel n (hop_of f (i - 1)) (send (hop_of f i) raw)
        ≡ ok (hop_of f (length f.hops - 1), write f.payload)
  unfolding travel
  arrives_from f source destination zero i raw count pos some_left v e ends stations =
      absurd (omega arith)
  arrives_from f source destination (suc n) i raw count pos some_left v e ends stations =
      let local = hop_of f i in
      let c = (node local).config in
      let s = stations i (omega arith) (omega arith) in
      let a = station-Approved f source destination i s v pos (omega arith) ends in
      let step =
        handled c (frame_at f i) local (hop_of f (i - 1)) raw s.path refl s.runs e s.lease a in
      let answer = ap (λ (t : Router F × Result RouterError Action). t.1) step in
      elim (Bool-cases (i == length f.hops - 1)) [
        | inl g ↦
            let stays = rw g at answer in
            let at_end : i ≡ length f.hops - 1 = ground arith in
            rw
              (
                stays,
                arrive-ok c (node local) (frame_at f i) local (hop_of f (i - 1)) s.path a,
                travel-write n local f.payload,
              )
              (ap (λ (j : ℕ). ok (hop_of f j, write f.payload)) at_end)
        | inr g ↦
            let goes = rw g at answer in
            let more : i + 1 < length f.hops = ground arith in
            let valid = IsValid-frame_at f (i + 1) v (omega arith) more in
            let (action, sends, sent) =
              Sent-send_frame (mesh local) (frame_at f (i + 1)) valid (s.up more) in
            let same : sent.next ≡ hop_of f (i + 1) =
              ground (arith, sent.names, get_elem?-get_or f.hops (i + 1) [] more) in
            let back : i + 1 - 1 ≡ i = omega arith in
            let rest =
              arrives_from f source destination n (i + 1) sent.raw (omega arith) (omega arith)
                (omega arith) v sent.reads ends (λ j h k. stations j (omega arith) k) in
            rw (goes, sends, sent.action, same) (rw back at rest)
      ]

  -- A valid frame with an IPv4 packet that is sent to its hop is handled by one Node after the other,
  -- as many as there are hops left, and ends as the payload written at its last hop. Each Node that it
  -- comes to runs under its own id with its own configuration, whose policy has not expired at that
  -- moment and which has the frame's path, with its owner and hops, and lets the addresses of the
  -- packet pass in the frame's direction; and the Node's link to the next hop, where there is one, is
  -- up.
  pub travel_arrives :
      (f : Frame) (source destination : ℕ) (raw : Bytes)
      → IsValid f
      → unmarshal_frame raw ≡ ok f
      → parse_ipv4_endpoints f.payload ≡ ok (source, destination)
      → ((i : ℕ) → f.hop_index ≤ i → i < length f.hops → IsStation f source destination i)
      → travel
          (length f.hops - f.hop_index)
          (hop_of f (f.hop_index - 1))
          (send (hop_of f f.hop_index) raw)
        ≡ ok (hop_of f (length f.hops - 1), write f.payload)
  travel_arrives f source destination raw v e ends stations =
      arrives_from f source destination (length f.hops - f.hop_index) f.hop_index raw
        (omega (arith, v.receiver)) (omega (arith, v.receiver)) (omega (arith, v.receiver)) v e ends
        stations
