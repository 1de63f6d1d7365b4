-- ===== src/Controlplane/Ownership/Passed.antt =====
-- What a route has that passes `validateRouteOwnershipInvariant` of internal/controlplane/fsm.go.
use mathlib.Core.List.{Memᴰ}
use mathlib.Core.Path.{subst}
use bpc.Base.{
  ◌<◌, Bool, true, false, not, ◌&&◌, ◌||◌, List, [], ◌∷◌, length, Bytes, bytes_eq, bytes_eq_iff,
  codes, Option, some, ok, ◌==◌, Option-cases, Bool-cases, inl, inr, ◌≡◌, refl, arith,
}
use bpc.Base.Dict.{Dict, lookup}
use bpc.Base.Encoding.{trim_space}
use bpc.Base.Net.{Prefix, masked, parse_prefix4}
use bpc.Controlplane.Ownership.{
  Json, RouteOwnershipRecord, RouteOwnerNodeRecord, ValidatedRouteOwnership, grants_route,
  any_grant, owner_of, role_of, grants_of, node_path, route_prefix_of, validate_route,
}
use bpc.Controlplane.Ownership.Owned.{
  Covers, IsGrant, authorized, advertised, IsAuthorized, Names, by_owner, by_node, IsRoute,
}

grants_route-Covers :
    (route : Prefix) (raw : Bytes) → grants_route route raw ≡ true → Covers raw route
unfolding grants_route
grants_route-Covers route raw h = elim (Option-cases (parse_prefix4 raw)) [
  | inl e ↦ absurd (ground arith)
  | inr (grant, e) ↦ record {
    grant = grant;
    parses = e;
    proper = ground arith;
    wide = ground arith;
    holds = ground arith;
  }
]

any_grant-Mem :
    (route : Prefix) (grants : List Bytes)
    → any_grant route grants ≡ true
    → (raw : Bytes) × Memᴰ raw grants × Covers raw route
unfolding any_grant
any_grant-Mem route [] h = absurd (ground arith)
any_grant-Mem route (g ∷ gs) h = elim (Bool-cases (grants_route route g)) [
  | inl e ↦ (g, Memᴰ.head refl, grants_route-Covers route g e)
  | inr e ↦ let (raw, n, c) = any_grant-Mem route gs (rw e at h) in (raw, Memᴰ.tail n, c)
]

grants_of-IsGrant :
    (n : RouteOwnerNodeRecord) (raw : Bytes) → Memᴰ raw (grants_of n) → IsGrant n raw
unfolding grants_of
grants_of-IsGrant n raw m = elim (Option-cases n.authorized_routes) [
  | inl e ↦ advertised e (rw e at m)
  | inr (grants, e) ↦ authorized grants e (rw e at m)
]

role_of-lookup :
    (role : Bytes) (roles : Dict Bool) → role_of role roles ≡ true → lookup role roles ≡ some true
role_of-lookup role roles h = elim (Option-cases (lookup role roles)) [
  | inl e ↦ absurd (ground arith)
  | inr (b, e) ↦ ground arith
]

owner_of-Names :
    (r : RouteOwnershipRecord)
    → (not (length r.node_id == 0) && not (bytes_eq (trim_space r.node_id) (owner_of r))) ≡ false
    → Names r (owner_of r)
unfolding owner_of
owner_of-Names r h = elim (Bool-cases (length (trim_space r.owner_node_id) == 0)) [
  | inl e ↦ by_node (ground arith) (rw (e, owner_of) refl)
  | inr e ↦
      let h' = rw (e, owner_of) at h in
      rw (e, owner_of)
        (by_owner refl (elim (Bool-cases (length r.node_id == 0)) [
          | inl f ↦ inl (ground arith)
          | inr f ↦
              inr (
                (bytes_eq_iff (trim_space r.node_id) (trim_space r.owner_node_id)).0 (ground arith))
        ]))
]

-- What the rest of the round looks at, for a record and its prefix.
node-IsAuthorized :
    (json : Json) (view : Bytes → Option Bytes) (owner raw : Bytes) (node : RouteOwnerNodeRecord)
    (route : Prefix)
    → view (node_path owner) ≡ some raw
    → json.decode_node raw ≡ some node
    → (not (bytes_eq (trim_space node.node_id) owner)
        || (node.revoked || not (role_of (codes "site_router") node.roles)))
      ≡ false
    → any_grant route (grants_of node) ≡ true
    → IsAuthorized json view owner route
unfolding node_path
node-IsAuthorized json view owner raw node route there decoded fine granted =
    let (grant, m, c) = any_grant-Mem route (grants_of node) granted in
    record {
      raw = raw;
      node = node;
      stored = there;
      decoded = decoded;
      named = (bytes_eq_iff (trim_space node.node_id) owner).0 (ground arith);
      active = ground arith;
      site_router = role_of-lookup (codes "site_router") node.roles (ground arith);
      grant = grant;
      granted = grants_of-IsGrant node grant m;
      covers = c;
    }

-- The prefix of a route, and what it was written as.
route_prefix_of-parse :
    (r : RouteOwnershipRecord) (p : Prefix)
    → route_prefix_of r ≡ some p
    → (w : Prefix) × (parse_prefix4 (trim_space r.cidr) ≡ some w) × (0 < w.bits) × (p ≡ masked w)
unfolding route_prefix_of
route_prefix_of-parse r p h = elim (Option-cases (parse_prefix4 (trim_space r.cidr))) [
  | inl e ↦ absurd (ground arith)
  | inr (w, e) ↦ elim (Bool-cases (w.bits == 0)) [
    | inl f ↦ absurd (ground arith)
    | inr f ↦ (w, e, ground arith, ground arith)
  ]
]

pub validate_route-IsRoute :
    (json : Json) (view : Bytes → Option Bytes) (path raw : Bytes) (v : ValidatedRouteOwnership)
    → validate_route json view path raw ≡ ok v
    → IsRoute json view raw v.owner v.prefix
unfolding validate_route
validate_route-IsRoute json view path raw v h = elim (Option-cases (json.decode_route raw)) [
  | inl e ↦ absurd (ground arith)
  | inr (r, e) ↦
      let owner = owner_of r in
      elim (Bool-cases (
        length owner == 0
        || (not (length r.node_id == 0) && not (bytes_eq (trim_space r.node_id) owner)))) [
          | inl f ↦ absurd (ground arith)
          | inr f ↦ elim (Option-cases (route_prefix_of r)) [
            | inl g ↦ absurd (ground arith)
            | inr (p, g) ↦ elim (Option-cases (view (node_path owner))) [
              | inl i ↦ absurd (ground arith)
              | inr (node_raw, i) ↦ elim (Option-cases (json.decode_node node_raw)) [
                | inl j ↦ absurd (ground arith)
                | inr (node, j) ↦
                    let (w, parsed, proper, network) = route_prefix_of-parse r p g in
                    let fine : (not (bytes_eq (trim_space node.node_id) owner)
                          || (node.revoked || not (role_of (codes "site_router") node.roles)))
                        ≡ false =
                      ground arith in
                    let granted : any_grant p (grants_of node) ≡ true = ground arith in
                    let same : record { path = path; owner = owner; prefix = p } ≡ v =
                      ground arith in
                    subst (λ (u : ValidatedRouteOwnership). IsRoute json view raw u.owner u.prefix)
                      same
                      record {
                        fields = r;
                        decoded = e;
                        names = owner_of-Names r (ground arith);
                        not_blank = ground arith;
                        written = w;
                        parses = parsed;
                        proper = proper;
                        network = network;
                        owned = node-IsAuthorized json view owner node_raw node p i j fine granted;
                      }
              ]
            ]
          ]
        ]
]
