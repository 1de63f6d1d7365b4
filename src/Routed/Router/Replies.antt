-- ===== src/Routed/Router/Replies.antt =====
-- The replies of a site, in internal/routed/router.go.
use mathlib.Core.List.{reverse}
use bpc.Base.{
  ℕ, zero, suc, ◌+◌, ◌-◌, ◌/◌, ◌≤◌, ◌<◌, ◌==◌, true, false, List, [], ◌∷◌, length, get_or,
  get_elem?, Bytes, All, some, Result, ok, ◌≡◌, refl, sym, ◌∙◌, ap, arith,
}
use bpc.Base.Sort.{Sorter}
use bpc.Base.Float.{Float}
use bpc.Routed.Frame.{Frame, unmarshal_frame}
use bpc.Routed.Frame.Valid.{IsValid, OwnerEnd, origin, end}
use bpc.Routed.Config.{RoutePath, policy_valid}
use bpc.Routed.Config.Lookup.{transit_path-id}
use bpc.Routed.Transit.{parse_ipv4_endpoints, prefix_holds}
use bpc.Routed.Transit.Approval.{Approved, parse_ipv4-length, validate_frame_iff}
use bpc.Routed.Selection.{MeshView}
use bpc.Routed.Router.{
  Action, send, write, RouterError, Router, reverse_path_ttl, first_frame, remember_reverse, arrive,
  send_frame, handle_tun_packet, handle_mesh_data,
}
use bpc.Routed.Router.Relay.{
  Sent-send_frame, written, passed_on, handle_mesh_data-Handled, handle_mesh_data-accepted,
}
use bpc.Routed.Router.Reverse.{turned, reply-known_path, handle_tun_packet-reply}
use bpc.Routed.Router.Memory.{Remembers, Remembers-known_path, remember_reverse-Remembers}
use bpc.Routed.Router.Events.{Event, Between, handle_all, handle_all-Remembers}

-- What a Node has learned from a forward frame whose packet it wrote.
record Learned {F : Type 0} (sorter : Sorter) (r r' : Router F) (peer : Bytes) (f : Frame)
    (device later : ℕ) : Type 0 where
  path : RoutePath F
  approved : Approved sorter r.config f r.local_node_id peer path
  last : f.hop_index + 1 ≡ length f.hops
  table : r' ≡ remember_reverse r device path later

arrive-remember_reverse :
    {F : Type 0} (r : Router F) (f : Frame) (path : RoutePath F) (device site later : ℕ)
    → f.is_return ≡ false
    → parse_ipv4_endpoints f.payload ≡ ok (device, site)
    → (arrive r f path later).0 ≡ remember_reverse r device path later
unfolding arrive
arrive-remember_reverse r f path device site later forward ends = ground arith

handle_mesh_data-Learned :
    {F : Type 0} (sorter : Sorter) (mesh : MeshView F) (r r' : Router F) (peer raw packet : Bytes)
    (now later : ℕ) (f : Frame) (device site : ℕ)
    → handle_mesh_data sorter mesh r peer raw now later ≡ (r', ok (write packet))
    → unmarshal_frame raw ≡ ok f
    → f.is_return ≡ false
    → parse_ipv4_endpoints f.payload ≡ ok (device, site)
    → Learned sorter r r' peer f device later
handle_mesh_data-Learned sorter mesh r r' peer raw packet now later f device site h read forward
      ends =
    elim (handle_mesh_data-Handled sorter mesh r peer raw now later (write packet)
      (ground (arith, h))) [
        | written g path e lease approved last a ↦
            let same : g ≡ f = ground arith in
            let approved' : Approved sorter r.config f r.local_node_id peer path =
              rw same at approved in
            let last' : f.hop_index + 1 ≡ length f.hops = rw same at last in
            let at_end : (f.hop_index == length f.hops - 1) ≡ true = ground arith in
            let accepted =
              handle_mesh_data-accepted sorter mesh r peer raw now later f path read lease
                ((validate_frame_iff sorter f r.local_node_id peer r.config path).1 approved') in
            let arrived = rw at_end at accepted in
            record {
              path = path;
              approved = approved';
              last = last';
              table =
                  sym (ap (λ (s : Router _ × Result RouterError Action). s.0) h)
                  ∙ ap (λ (s : Router _ × Result RouterError Action). s.0) arrived
                  ∙ arrive-remember_reverse r f path device site later forward ends;
            }
        | passed_on g path e lease approved more sent ↦ absurd (ground (arith, sent.action))
      ]

-- The reply's frame is valid.
reply-IsValid :
    (f : Frame) (answer : Bytes)
    → IsValid f
    → f.is_return ≡ false
    → 0 < length answer
    → length answer ≤ 65535
    → IsValid (first_frame f.path_id f.owner_node_id (reverse f.hops) true answer)
unfolding first_frame
reply-IsValid f answer v forward full small =
    let t = turned f.hops v.hop_count.0 v.hop_count.1 v.hop_sizes v.no_loop in
    record {
      path_size = v.path_size;
      owner_size = v.owner_size;
      hop_count = t.count;
      receiver = (omega arith, omega (arith, t.count));
      hop_sizes = t.sizes;
      no_loop = t.no_loop;
      owner_end = elim v.owner_end [
        | origin b e ↦ absurd (ground arith)
        | end b e ↦ origin refl (t.start ∙ e)
      ];
      payload_size = (full, small);
    }

first_of : (xs : List Bytes) (i : ℕ) (x : Bytes) → get_elem? xs i ≡ some x → get_or xs i [] ≡ x
first_of [] i x h = absurd (ground arith)
first_of (y ∷ ys) zero x h = ground arith
first_of (y ∷ ys) (suc i) x h = first_of ys i x h

owner_local :
    (f : Frame) (local : Bytes)
    → OwnerEnd f
    → f.is_return ≡ false
    → get_elem? f.hops (length f.hops - 1) ≡ some local
    → local ≡ f.owner_node_id
owner_local f local (origin b e) h k = absurd (ground arith)
owner_local f local (end b e) h k = ground arith

-- A site router writes the packet of a forward frame that a peer has sent. Then, whatever frames,
-- packets of its tunnel device and configurations it handles, as long as no frame brings another
-- packet from the same Device, its reply to the Device goes back to that peer, on the same path with
-- its hops turned round: at most ten minutes after the packet was written, by a clock that does not
-- go back, under a configuration that still has the Node as a site router, the Device in the overlay
-- and a policy that has not expired, over a link that is up, for a reply that fits a frame.
pub reply_returns :
    (fl : Float) (sorter : Sorter) (mesh mesh' : MeshView (fl.F)) (r r' : Router (fl.F))
    (peer raw packet : Bytes) (now later : ℕ) (f : Frame) (device site : ℕ)
    (events : List (Event (fl.F))) (answer : Bytes) (source moment : ℕ)
    → handle_mesh_data sorter mesh r peer raw now later ≡ (r', ok (write packet))
    → unmarshal_frame raw ≡ ok f
    → f.is_return ≡ false
    → parse_ipv4_endpoints f.payload ≡ ok (device, site)
    → All (Between fl sorter device later moment) events
    → moment ≤ later + reverse_path_ttl
    → (handle_all fl sorter r' events).config.local_site_router ≡ true
    → prefix_holds (handle_all fl sorter r' events).config.overlay_subnet device ≡ true
    → policy_valid (handle_all fl sorter r' events).config (moment / 1000000000) ≡ true
    → parse_ipv4_endpoints answer ≡ ok (source, device)
    → length answer ≤ 65535
    → mesh'.can_send peer ≡ true
    → (sent : Bytes) × ((handle_tun_packet fl sorter mesh'
          (handle_all fl sorter r' events)
          answer
          moment).1
        ≡ ok (send peer sent))
      × (unmarshal_frame sent
          ≡ ok (first_frame f.path_id f.owner_node_id (reverse f.hops) true answer))
unfolding first_frame
reply_returns fl sorter mesh mesh' r r' peer raw packet now later f device site events answer source
      moment h read forward ends between near router overlay lease parsed small up =
    let l =
      handle_mesh_data-Learned sorter mesh r r' peer raw packet now later f device site h read
        forward ends in
    let a = l.approved in
    let v = a.valid in
    let t = turned f.hops v.hop_count.0 v.hop_count.1 v.hop_sizes v.no_loop in
    let valid =
      reply-IsValid f answer v forward (parse_ipv4-length answer (source, device) parsed) small in
    let back_frame = first_frame f.path_id f.owner_node_id (reverse f.hops) true answer in
    let same_hops : l.path.hops ≡ f.hops = ground (arith, a.hops) in
    let same_id : l.path.id ≡ f.path_id = transit_path-id r.config f.path_id l.path a.known in
    let at_last : f.hop_index ≡ length f.hops - 1 = ground (arith, l.last) in
    let before_last : f.hop_index - 1 ≡ length f.hops - 2 = ground (arith, l.last) in
    let starts : get_or (reverse f.hops) 0 [] ≡ r.local_node_id =
      first_of (reverse f.hops) 0 r.local_node_id (t.start ∙ rw at_last at a.current) in
    let goes_to : get_or (reverse f.hops) 1 [] ≡ peer =
      first_of (reverse f.hops) 1 peer (t.next ∙ rw before_last at a.previous) in
    let owned : r.local_node_id ≡ f.owner_node_id =
      owner_local f r.local_node_id v.owner_end forward (rw at_last at a.current) in
    let learned : Remembers r.local_node_id device l.path moment r' =
      rw l.table
        (remember_reverse-Remembers r.local_node_id device l.path moment r later refl near) in
    let q = handle_all fl sorter r' events in
    let remembers =
      handle_all-Remembers fl sorter r.local_node_id device later moment l.path r' events near
        between learned in
    let replied =
      reply-known_path mesh' q answer device moment l.path
        (Remembers-known_path r.local_node_id device l.path moment q remembers)
        (rw same_hops t.count.0) (rw same_hops starts ∙ sym remembers.here) in
    let handled =
      handle_tun_packet-reply fl sorter mesh' q answer source device moment parsed lease router
        overlay in
    let (action, sends, sent) = Sent-send_frame mesh' back_frame valid (rw goes_to up) in
    let next_peer : sent.next ≡ peer =
      sym (first_of (reverse f.hops) 1 sent.next sent.names) ∙ goes_to in
    let answered : send_frame mesh'
          (first_frame l.path.id q.local_node_id (reverse l.path.hops) true answer)
        ≡ ok (send peer sent.raw) =
      rw (same_id, same_hops, remembers.here ∙ owned) (sends ∙ rw (sent.action, next_peer) refl) in
    (
      sent.raw,
      ap (λ (s : Router _ × Result RouterError Action). s.1) handled ∙ replied ∙ answered,
      sent.reads,
    )
