-- ===== src/Routed/Router/Reverse.antt =====
-- The reverse paths of internal/routed/router.go: what a site router learns from the packets that
-- come in, and the way of the replies.
use mathlib.Core.List.{reverse}
use bpc.Base.{
  ℕ, ◌-◌, ◌/◌, ◌≤◌, if◌then◌else◌, true, List, [], ◌∷◌, length, get_or, get_elem?, Bytes,
  bytes_eq_iff, All, Option, none, some, ok, ◌≡◌, refl, sym, ◌∙◌, arith,
}
use bpc.Base.Net.{format_addr4}
use bpc.Base.Sort.{Sorter}
use bpc.Base.Float.{Float}
use bpc.Base.Dict.{lookup}
use bpc.Routed.Frame.Valid.{FitsHop, Distinct}
use bpc.Routed.Config.{RoutePath, policy_valid}
use bpc.Routed.Transit.{parse_ipv4_endpoints, prefix_holds}
use bpc.Routed.Selection.{MeshView}
use bpc.Routed.Router.{
  Router, first_frame, expired, reverse_for, reply, send_frame, handle_tun_packet,
}

-- What stands in the table for a Device, unless it has expired.
unfoldable pub known_path : {F : Type 0} → Router F → ℕ → ℕ → Option (RoutePath F)
unfolding expired
known_path r device now = elim (lookup (format_addr4 device) r.reverse_paths) [
  | none ↦ none
  | some entry ↦ if expired entry now then none else some entry.path
]

pub reverse_for-known_path :
    {F : Type 0} (r : Router F) (device now : ℕ)
    → (reverse_for r device now).1 ≡ known_path r device now
unfolding reverse_for known_path
reverse_for-known_path r device now = ground arith

-- The other way round, two or three hops are as they were.
pub record Turned (hops : List Bytes) : Type 0 where
  pub count : (2 ≤ length (reverse hops)) × (length (reverse hops) ≤ 3)
  pub sizes : All FitsHop (reverse hops)
  pub no_loop : Distinct (reverse hops)
  pub start : get_elem? (reverse hops) 0 ≡ get_elem? hops (length hops - 1)
  pub next : get_elem? (reverse hops) 1 ≡ get_elem? hops (length hops - 2)

pub turned :
    (hops : List Bytes)
    → 2 ≤ length hops
    → length hops ≤ 3
    → All FitsHop hops
    → Distinct hops
    → Turned hops
unfolding reverse
turned [] ge le sizes distinct = absurd (omega arith)
turned (x ∷ []) ge le sizes distinct = absurd (omega arith)
turned (x ∷ y ∷ []) ge le sizes distinct = record {
  count = (omega arith, omega arith);
  sizes = (sizes.1.0, (sizes.0, tt));
  no_loop = (((λ e. distinct.0.0 (sym e)), tt), (tt, tt));
  start = refl;
  next = refl;
}
turned (x ∷ y ∷ z ∷ []) ge le sizes distinct = record {
  count = (omega arith, omega arith);
  sizes = (sizes.1.1.0, (sizes.1.0, (sizes.0, tt)));
  no_loop = (
    ((λ e. distinct.1.0.0 (sym e)), ((λ e. distinct.0.1.0 (sym e)), tt)),
    (((λ e. distinct.0.0 (sym e)), tt), (tt, tt)),
  );
  start = refl;
  next = refl;
}
turned (x ∷ y ∷ z ∷ w ∷ rest) ge le sizes distinct = absurd (omega arith)

pub reply-known_path :
    {F : Type 0} (mesh : MeshView F) (r : Router F) (packet : Bytes) (device now : ℕ)
    (forward : RoutePath F)
    → known_path r device now ≡ some forward
    → 2 ≤ length (reverse forward.hops)
    → get_or (reverse forward.hops) 0 [] ≡ r.local_node_id
    → (reply mesh r packet device now).1
      ≡ send_frame mesh (first_frame forward.id r.local_node_id (reverse forward.hops) true packet)
unfolding reply
reply-known_path mesh r packet device now forward known long starts =
    let same = (bytes_eq_iff (get_or (reverse forward.hops) 0 []) r.local_node_id).1 starts in
    rw (reverse_for-known_path r device now ∙ known, reply) (ground (arith, same))

pub handle_tun_packet-reply :
    (fl : Float) (sorter : Sorter) (mesh : MeshView (fl.F)) (r : Router (fl.F)) (packet : Bytes)
    (source device now : ℕ)
    → parse_ipv4_endpoints packet ≡ ok (source, device)
    → policy_valid r.config (now / 1000000000) ≡ true
    → r.config.local_site_router ≡ true
    → prefix_holds r.config.overlay_subnet device ≡ true
    → handle_tun_packet fl sorter mesh r packet now ≡ reply mesh r packet device now
unfolding handle_tun_packet
handle_tun_packet-reply fl sorter mesh r packet source device now parsed lease site overlay =
    ground arith
