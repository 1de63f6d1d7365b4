-- ===== src/Controlplane/Ownership.antt =====
-- internal/controlplane/fsm.go: who owns which route. `Json` is `encoding/json` for the two records
-- that are read.
pub mod Records
pub mod Checked
pub mod Owned
pub mod Passed
pub mod Accepted
use bpc.Base.{
  ℕ, Bool, true, false, not, ◌&&◌, ◌||◌, List, [], ◌∷◌, ◌++◌, ltb, leb, ◌==◌, if◌then◌else◌, length,
  Bytes, bytes_eq, bytes_lt, codes, has_prefix, Option, none, some, Result, ok, err, ◌>>=◌, ◌>>◌,
  fail_if, require,
}
use bpc.Base.Dict.{Dict, lookup, insert, delete}
use bpc.Base.Encoding.{trim_space}
use bpc.Base.Net.{Prefix, masked, contains, overlaps, parse_prefix4}
use bpc.Base.Sort.{Sorter}
use bpc.Controlplane.Bolt.{Bolt}
use bpc.Controlplane.Store.{seek}
use bpc.Controlplane.Command.{Operation, put_op, delete_op}

pub record RouteOwnershipRecord : Type 0 where
  pub cidr : Bytes
  pub node_id : Bytes
  pub owner_node_id : Bytes

pub record RouteOwnerNodeRecord : Type 0 where
  pub authorized_routes : Option (List Bytes)
  pub advertised_routes : List Bytes
  pub node_id : Bytes
  pub revoked : Bool
  pub roles : Dict Bool

pub record Json : Type 0 where
  pub decode_route : Bytes → Option RouteOwnershipRecord
  pub decode_node : Bytes → Option RouteOwnerNodeRecord

pub record ValidatedRouteOwnership : Type 0 where
  pub path : Bytes
  pub owner : Bytes
  pub prefix : Prefix

pub data OwnershipError : Type 0 where
  invalid_route_record owner_mismatch invalid_route no_owner_node : OwnershipError
  invalid_node_record not_site_router outside_policy ownership_conflict : OwnershipError

-- The cursor's loop: the entries from the first on that have the prefix.
unfoldable pub take_prefixed : Bytes → Dict Bytes → Dict Bytes
take_prefixed prefix [] = []
take_prefixed prefix ((k, v) ∷ m) =
    let rest = take_prefixed prefix m in if has_prefix k prefix then (k, v) ∷ rest else []

unfoldable pub apply_to_records : Bytes → List Operation → Dict Bytes → Dict Bytes
apply_to_records prefix [] m = m
apply_to_records prefix (o ∷ os) m = apply_to_records prefix os (
    if not (has_prefix o.path prefix)
    then m
    else if bytes_eq o.op put_op
    then insert o.path o.contents m
    else if bytes_eq o.op delete_op
    then delete o.path m
    else m)

pub resulting_prefix_records : (bolt : Bolt) → bolt.Bucket → Bytes → List Operation → Dict Bytes
resulting_prefix_records bolt canonical prefix ops =
    apply_to_records prefix ops (take_prefixed prefix (seek prefix (bolt.entries canonical)))

-- Whether a grant is an IPv4 prefix that holds the route.
pub grants_route : Prefix → Bytes → Bool
grants_route route raw = elim (parse_prefix4 raw) [
  | none ↦ false
  | some grant ↦
      ltb 0 grant.bits && (leb grant.bits route.bits && contains (masked grant) route.addr)
]

any_grant : Prefix → List Bytes → Bool
any_grant route [] = false
any_grant route (g ∷ gs) = grants_route route g || any_grant route gs

-- `owner_node_id`, or else `node_id`.
owner_of : RouteOwnershipRecord → Bytes
owner_of r =
    let owner = trim_space r.owner_node_id in
    if length owner == 0 then trim_space r.node_id else owner

abbrev pub role_of : Bytes → Dict Bool → Bool
role_of role roles = elim (lookup role roles) [ none ↦ false | some b ↦ b ]

grants_of : RouteOwnerNodeRecord → List Bytes
grants_of n = elim n.authorized_routes [ none ↦ n.advertised_routes | some grants ↦ grants ]

node_path : Bytes → Bytes
node_path owner = codes "control/nodes/" ++ (owner ++ codes ".json")

-- A route that may be: an IPv4 prefix that is not the default route.
pub route_prefix_of : RouteOwnershipRecord → Option Prefix
route_prefix_of r = elim (parse_prefix4 (trim_space r.cidr)) [
  | none ↦ none
  | some p ↦ if p.bits == 0 then none else some (masked p)
]

-- One round of the loop over the routes. `nodes` looks a node's record up.
pub validate_route :
    Json → (Bytes → Option Bytes) → Bytes → Bytes → Result OwnershipError ValidatedRouteOwnership
unfolding any_grant owner_of grants_of node_path
validate_route json nodes path raw = do
  r ← require (json.decode_route raw) invalid_route_record
  let owner = owner_of r
  fail_if
      (length owner == 0
        || (not (length r.node_id == 0) && not (bytes_eq (trim_space r.node_id) owner)))
      owner_mismatch
  prefix ← require (route_prefix_of r) invalid_route
  node_raw ← require (nodes (node_path owner)) no_owner_node
  node ← require (json.decode_node node_raw) invalid_node_record
  fail_if
      (not (bytes_eq (trim_space node.node_id) owner)
        || (node.revoked || not (role_of (codes "site_router") node.roles)))
      not_site_router
  fail_if (not (any_grant prefix (grants_of node))) outside_policy
  ok (record { path = path; owner = owner; prefix = prefix })

pub validate_routes :
    Json
    → (Bytes → Option Bytes)
    → Dict Bytes
    → Result OwnershipError (List ValidatedRouteOwnership)
validate_routes json nodes [] = ok []
validate_routes json nodes ((path, raw) ∷ routes) = do
  v ← validate_route json nodes path raw
  vs ← validate_routes json nodes routes
  ok (v ∷ vs)

-- Two routes of different owners overlap.
pub clash : ValidatedRouteOwnership → ValidatedRouteOwnership → Bool
clash v w = not (bytes_eq v.owner w.owner) && overlaps v.prefix w.prefix

pub clashes : ValidatedRouteOwnership → List ValidatedRouteOwnership → Bool
clashes v [] = false
clashes v (w ∷ ws) = clash v w || clashes v ws

pub any_clash : List ValidatedRouteOwnership → Bool
any_clash [] = false
any_clash (v ∷ vs) = clashes v vs || any_clash vs

abbrev pub path_before : ValidatedRouteOwnership → ValidatedRouteOwnership → Bool
path_before v w = bytes_lt v.path w.path

-- `ok` is the empty string. Which of several errors is answered depends on the order of a Go map.
pub validate_route_ownership :
    (bolt : Bolt) → Json → Sorter → bolt.Bucket → List Operation → Result OwnershipError (Unit {0})
validate_route_ownership bolt json sorter canonical ops = do
  let routes = resulting_prefix_records bolt canonical (codes "control/routes/") ops
  let nodes = resulting_prefix_records bolt canonical (codes "control/nodes/") ops
  validated ← validate_routes json (λ k. lookup k nodes) routes
  fail_if (any_clash (sorter.sort path_before validated)) ownership_conflict
