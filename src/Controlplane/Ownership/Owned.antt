-- ===== src/Controlplane/Ownership/Owned.antt =====
-- The invariant that `validateRouteOwnershipInvariant` of internal/controlplane/fsm.go is named for,
-- told of the records of a state.
use mathlib.Core.List.{Memᴰ}
use bpc.Base.{
  ℕ, ◌<◌, ◌≤◌, true, false, List, ◌++◌, length, Bytes, codes, has_prefix, Option, none, some, ◌≡◌,
  ◌≢◌, ◌⊎◌, arith,
}
use bpc.Base.Dict.{lookup}
use bpc.Base.Encoding.{trim_space}
use bpc.Base.Net.{Prefix, masked, contains, parse_prefix4}
use bpc.Controlplane.Ownership.{Json, RouteOwnershipRecord, RouteOwnerNodeRecord}

-- A grant is an IPv4 prefix, not the default one, that is at most as long as the route's and holds
-- the route's address.
pub record Covers (raw : Bytes) (route : Prefix) : Type 0 where
  pub grant : Prefix
  pub parses : parse_prefix4 raw ≡ some grant
  pub proper : 0 < grant.bits
  pub wide : grant.bits ≤ route.bits
  pub holds : contains (masked grant) route.addr ≡ true

-- A grant counts if it is authorized; an advertised one where nothing is said of authorized ones.
pub data IsGrant (n : RouteOwnerNodeRecord) (raw : Bytes) : Type 0 where
  authorized :
      (grants : List Bytes) → n.authorized_routes ≡ some grants → Memᴰ raw grants → IsGrant n raw
  advertised : n.authorized_routes ≡ none → Memᴰ raw n.advertised_routes → IsGrant n raw

-- The state has a record of the owner: an active site router with a grant for the route.
pub record IsAuthorized (json : Json) (view : Bytes → Option Bytes) (owner : Bytes) (route : Prefix)
    : Type 0 where
  pub raw : Bytes
  pub node : RouteOwnerNodeRecord
  pub stored : view (codes "control/nodes/" ++ (owner ++ codes ".json")) ≡ some raw
  pub decoded : json.decode_node raw ≡ some node
  pub named : trim_space node.node_id ≡ owner
  pub active : node.revoked ≡ false
  pub site_router : lookup (codes "site_router") node.roles ≡ some true
  pub grant : Bytes
  pub granted : IsGrant node grant
  pub covers : Covers grant route

-- A record of a route names its owner, in the second field where the first one is blank.
pub data Names (r : RouteOwnershipRecord) (owner : Bytes) : Type 0 where
  by_owner :
      trim_space r.owner_node_id ≡ owner
      → (length r.node_id ≡ 0) ⊎ (trim_space r.node_id ≡ owner)
      → Names r owner
  by_node : length (trim_space r.owner_node_id) ≡ 0 → trim_space r.node_id ≡ owner → Names r owner

-- What the record of a route says, and that its owner is authorized.
pub record IsRoute (json : Json) (view : Bytes → Option Bytes) (raw owner : Bytes) (route : Prefix)
    : Type 0 where
  pub fields : RouteOwnershipRecord
  pub decoded : json.decode_route raw ≡ some fields
  pub names : Names fields owner
  pub not_blank : 0 < length owner
  pub written : Prefix
  pub parses : parse_prefix4 (trim_space fields.cidr) ≡ some written
  pub proper : 0 < written.bits
  pub network : route ≡ masked written
  pub owned : IsAuthorized json view owner route

-- Every route of the state has an active site router that is authorized for it as its owner, and
-- no address is in two routes of different owners.
pub record Owned (json : Json) (view : Bytes → Option Bytes) : Type 0 where
  pub valid :
      (path raw : Bytes)
      → has_prefix path (codes "control/routes/") ≡ true
      → view path ≡ some raw
      → (owner : Bytes) × (route : Prefix) × IsRoute json view raw owner route
  pub disjoint :
      (path path' raw raw' owner owner' : Bytes) (route route' : Prefix) (a : ℕ)
      → has_prefix path (codes "control/routes/") ≡ true
      → has_prefix path' (codes "control/routes/") ≡ true
      → view path ≡ some raw
      → view path' ≡ some raw'
      → IsRoute json view raw owner route
      → IsRoute json view raw' owner' route'
      → owner ≢ owner'
      → contains route a ≡ true
      → contains route' a ≡ false

-- A state without records.
pub nothing-Owned :
    (json : Json) (view : Bytes → Option Bytes) → ((k : Bytes) → view k ≡ none) → Owned json view
nothing-Owned json view h = record {
  valid = λ p raw e there. absurd (ground (arith, h p));
  disjoint = λ p q raw raw' o o' r r' a e f there other m n d c. absurd (ground (arith, h p));
}
