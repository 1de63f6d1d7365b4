-- ===== src/Routed/Router/Origin.antt =====
-- What `HandleTunPacket` of internal/routed/router.go sends.
use mathlib.Core.List.{Memᴰ, reverse}
use mathlib.Core.Path.{subst}
use bpc.Base.{
  ℕ, ◌/◌, true, false, ◌&&◌, List, Bytes, none, some, ok, Result-cases, Option-cases, Bool-cases,
  inl, inr, ◌≡◌, ◌∙◌, arith,
}
use bpc.Base.Sort.{Sorter}
use bpc.Base.Float.{Float}
use bpc.Base.Dict.{lookup}
use bpc.Routed.Config.{Route, RoutePath, policy_valid, route_for, source_paths}
use bpc.Routed.Config.Sources.{IsSource, source_paths_iff}
use bpc.Routed.Transit.{parse_ipv4_endpoints, prefix_holds}
use bpc.Routed.Selection.{MeshView, RouteSelection, new_selection, route_key, viable_path, Scored}
use bpc.Routed.Selection.Candidates.{IsCandidate}
use bpc.Routed.Selection.Choice.{Choice, failover, stayed, switched, choose_path-Choice}
use bpc.Routed.Router.{Action, Router, first_frame, reply, choose_for, originate, handle_tun_packet}
use bpc.Routed.Router.Relay.{Sent, send_frame-Sent}
use bpc.Routed.Router.Reverse.{known_path, reverse_for-known_path}

module _ (fl : Float) (sorter : Sorter) (mesh : MeshView (fl.F)) where
  open fl use {F}

  -- Why a packet from the tunnel device was sent, and as which frame: as a reply of a site router to
  -- a Device that it has heard from, or to a site on a configured path that is viable.
  pub data Originated (r : Router F) (packet : Bytes) (now destination : ℕ) (a : Action)
      : Type 0 where
    replied :
        (forward : RoutePath F)
        → r.config.local_site_router ≡ true
        → prefix_holds r.config.overlay_subnet destination ≡ true
        → known_path r destination now ≡ some forward
        → Sent mesh (first_frame forward.id r.local_node_id (reverse forward.hops) true packet) a
        → Originated r packet now destination a
    routed :
        (route : Route) (path : RoutePath F) (score : F)
        → route_for sorter r.config destination ≡ some route
        → IsSource r.config r.local_node_id route path
        → viable_path fl mesh r.local_node_id path ≡ some score
        → Sent mesh (first_frame path.id route.owner_node_id path.hops false packet) a
        → Originated r packet now destination a

  IsCandidate-viable :
      (local : Bytes) (paths : List (RoutePath F)) (p : RoutePath F) (s : Scored fl)
      → IsCandidate fl mesh local paths s
      → s.path ≡ p
      → Memᴰ p paths × ((score : F) × (viable_path fl mesh local p ≡ some score))
  IsCandidate-viable local paths p s c e = (
    subst (λ q. Memᴰ q paths) e c.listed,
    (s.score, subst (λ q. viable_path fl mesh local q ≡ some s.score) e c.viable),
  )

  Choice-viable :
      (local : Bytes) (state : RouteSelection) (paths : List (RoutePath F)) (now : ℕ)
      (p : RoutePath F)
      → Choice fl mesh local state paths now p
      → Memᴰ p paths × ((score : F) × (viable_path fl mesh local p ≡ some score))
  Choice-viable local state paths now p (failover s c e best others) =
      IsCandidate-viable local paths p s c e
  Choice-viable local state paths now p (stayed s c e same) = IsCandidate-viable local paths p s c e
  Choice-viable local state paths now p (switched s current c e best k id cool gain was stable) =
      IsCandidate-viable local paths p s c e

  pub choose_for-viable :
      (r : Router F) (route : Route) (paths : List (RoutePath F)) (now : ℕ) (p : RoutePath F)
      → (choose_for fl sorter mesh r route paths now).1 ≡ some p
      → Memᴰ p paths × ((score : F) × (viable_path fl mesh r.local_node_id p ≡ some score))
  unfolding choose_for
  choose_for-viable r route paths now p h =
      let state : RouteSelection = elim (lookup (route_key route) r.selections) [
        | none ↦ new_selection
        | some s ↦ s
      ] in
      Choice-viable r.local_node_id state paths now p
        (choose_path-Choice fl sorter mesh r.local_node_id paths state now p h)

  reply-Originated :
      (r : Router F) (packet : Bytes) (now destination : ℕ) (a : Action)
      → r.config.local_site_router ≡ true
      → prefix_holds r.config.overlay_subnet destination ≡ true
      → (reply mesh r packet destination now).1 ≡ ok a
      → Originated r packet now destination a
  unfolding reply
  reply-Originated r packet now destination a site overlay h =
      elim (Option-cases (known_path r destination now)) [
        | inl e ↦
            let k = rw (reverse_for-known_path r destination now ∙ e, reply) at h in
            absurd (ground arith)
        | inr (forward, e) ↦ replied forward site overlay e (
            send_frame-Sent mesh
              (first_frame forward.id r.local_node_id (reverse forward.hops) true packet) a
              (let k = rw (reverse_for-known_path r destination now ∙ e, reply) at h in
                ground arith))
      ]

  originate-Originated :
      (r : Router F) (packet : Bytes) (now destination : ℕ) (a : Action)
      → (originate fl sorter mesh r packet destination now).1 ≡ ok a
      → Originated r packet now destination a
  unfolding originate
  originate-Originated r packet now destination a h =
      elim (Option-cases (route_for sorter r.config destination)) [
        | inl e ↦ let k = rw (e, originate) at h in absurd (ground arith)
        | inr (route, e) ↦
            let paths = source_paths fl sorter r.config r.local_node_id route in
            let k = rw (e, originate) at h in
            elim (Option-cases (choose_for fl sorter mesh r route paths now).1) [
              | inl c ↦ absurd (ground arith)
              | inr (path, c) ↦
                  let (m, (score, viable)) = choose_for-viable r route paths now path c in
                  routed route path score e
                    ((source_paths_iff fl sorter r.config r.local_node_id route path).0 m) viable
                    (send_frame-Sent mesh
                      (first_frame path.id route.owner_node_id path.hops false packet) a
                      (ground arith))
            ]
      ]

  -- What `HandleTunPacket` sends is an IPv4 packet under a policy that has not expired, and it goes
  -- out as a reply on a path that was learned from its destination and has not expired, or to the
  -- first hop of a viable configured path to the owner of the route that holds its destination.
  pub handle_tun_packet-Originated :
      (r : Router F) (packet : Bytes) (now : ℕ) (a : Action)
      → (handle_tun_packet fl sorter mesh r packet now).1 ≡ ok a
      → (source : ℕ) × (destination : ℕ) × (parse_ipv4_endpoints packet ≡ ok (source, destination))
        × (policy_valid r.config (now / 1000000000) ≡ true)
        × Originated r packet now destination a
  unfolding handle_tun_packet
  handle_tun_packet-Originated r packet now a h =
      elim (Result-cases (parse_ipv4_endpoints packet)) [
        | inr (x, e) ↦ let k = rw (e, handle_tun_packet) at h in absurd (ground arith)
        | inl ((source, destination), e) ↦
            let k = rw (e, handle_tun_packet) at h in
            elim (Bool-cases (policy_valid r.config (now / 1000000000))) [
              | inr p ↦ absurd (ground arith)
              | inl p ↦ (
                source,
                destination,
                e,
                p,
                elim (Bool-cases (
                    r.config.local_site_router
                    && prefix_holds r.config.overlay_subnet destination)) [
                      | inl b ↦
                          reply-Originated r packet now destination a (ground arith) (ground arith)
                            (ground arith)
                      | inr b ↦ originate-Originated r packet now destination a (ground arith)
                    ],
              )
            ]
      ]
