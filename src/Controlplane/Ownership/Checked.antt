-- ===== src/Controlplane/Ownership/Checked.antt =====
-- What `validateRouteOwnershipInvariant` of internal/controlplane/fsm.go has looked at once it passes:
-- every route of the state behind the command, and every two of them.
use Prim.Native.Nat.{min}
use mathlib.Core.List.{Memᴰ}
use mathlib.Core.List.Permᴰ
use mathlib.Core.Path.{subst}
use bpc.Base.{
  ℕ, Bool, true, false, not, List, [], ◌∷◌, ◌++◌, if◌then◌else◌, Bytes, bytes_eq, bytes_eq_iff,
  bytes_eq_refl, codes, has_prefix, Option, none, some, Result, ok, err, Result-cases, Option-cases,
  Bool-cases, inl, inr, ◌≡◌, ◌⊎◌, ◌/◌, ◌==◌, refl, sym, ◌∙◌, ap, arith,
}
use bpc.Base.Dict.{Dict, lookup}
use bpc.Base.Net.{Prefix, block, overlaps}
use bpc.Base.Sort.{Sorter, Memᴰ-of_Permᴰ, nothing-Memᴰ}
use bpc.Controlplane.Bolt.{Bolt}
use bpc.Controlplane.Command.{Operation}
use bpc.Controlplane.Ownership.{
  Json, OwnershipError, ValidatedRouteOwnership, owner_of, node_path, validate_route,
  validate_routes, clash, clashes, any_clash, path_before, resulting_prefix_records,
  validate_route_ownership,
}
use bpc.Controlplane.Ownership.Records.{effects_of, lookup-resulting}

abbrev pub routes_prefix : Bytes
routes_prefix = codes "control/routes/"

abbrev pub nodes_prefix : Bytes
nodes_prefix = codes "control/nodes/"

-- The route at a path of a canonical state: `none` where there is none, or an error where it may
-- not be.
unfoldable pub route_at :
    Json → (Bytes → Option Bytes) → Bytes → Option (Result OwnershipError ValidatedRouteOwnership)
route_at json view path =
    if has_prefix path routes_prefix
    then elim (view path) [ none ↦ none | some raw ↦ some (validate_route json view path raw) ]
    else none

unfoldable pub may_be : Option (Result OwnershipError ValidatedRouteOwnership) → Bool
may_be none = true
may_be (some (ok v)) = true
may_be (some (err e)) = false

unfoldable pub apart : (r s : Option (Result OwnershipError ValidatedRouteOwnership)) → Bool
apart (some (ok v)) (some (ok w)) = not (clash v w)
apart _ _ = true

-- Every route of the state passes the check, and no two of them clash.
pub record Checked (json : Json) (view : Bytes → Option Bytes) : Type 0 where
  pub valid : (path : Bytes) → may_be (route_at json view path) ≡ true
  pub disjoint : (p q : Bytes) → apart (route_at json view p) (route_at json view q) ≡ true

has_prefix-append : (p s : Bytes) → has_prefix (p ++ s) p ≡ true
unfolding has_prefix
has_prefix-append [] [] = refl
has_prefix-append [] (x ∷ s) = refl
has_prefix-append (x ∷ p) s = ground (arith, has_prefix-append p s)

-- A route is judged by the records of nodes only.
validate_route-agree :
    (json : Json) (f g : Bytes → Option Bytes) (path raw : Bytes)
    → ((owner : Bytes) → f (node_path owner) ≡ g (node_path owner))
    → validate_route json f path raw ≡ validate_route json g path raw
unfolding validate_route
validate_route-agree json f g path raw h = elim (Option-cases (json.decode_route raw)) [
  | inl e ↦ rw e refl
  | inr (r, e) ↦ rw (e, h (owner_of r)) refl
]

lookup-Mem : (k v : Bytes) (m : Dict Bytes) → lookup k m ≡ some v → Memᴰ (k, v) m
unfolding lookup
lookup-Mem k v [] h = absurd (ground arith)
lookup-Mem k v ((j, w) ∷ m) h = elim (Bool-cases (bytes_eq j k)) [
  | inl e ↦
      let same : j ≡ k = (bytes_eq_iff j k).0 e in
      let value : w ≡ v = ground arith in Memᴰ.head (rw (same, value) refl)
  | inr e ↦ Memᴰ.tail (lookup-Mem k v m (rw e at h))
]

validate_routes-Mem :
    (json : Json) (nodes : Bytes → Option Bytes) (m : Dict Bytes)
    (vs : List ValidatedRouteOwnership) (path raw : Bytes)
    → validate_routes json nodes m ≡ ok vs
    → Memᴰ (path, raw) m
    → (v : ValidatedRouteOwnership) × (validate_route json nodes path raw ≡ ok v) × Memᴰ v vs
unfolding validate_routes
validate_routes-Mem json nodes [] vs path raw h n = absurd (nothing-Memᴰ n)
validate_routes-Mem json nodes ((p, r) ∷ m) vs path raw h n =
    elim (Result-cases (validate_route json nodes p r)) [
      | inr (x, e) ↦ absurd (ground arith)
      | inl (v, e) ↦ elim (Result-cases (validate_routes json nodes m)) [
        | inr (x, f) ↦ absurd (ground arith)
        | inl (ws, f) ↦
            let all : v ∷ ws ≡ vs = ground arith in
            elim n [
              | Memᴰ.head same ↦ (
                v,
                (ap (λ (q : Bytes × Bytes). validate_route json nodes q.0 q.1) same ∙ e),
                subst (Memᴰ v) all (Memᴰ.head refl),
              )
              | Memᴰ.tail k ↦
                  let (w, g, i) = validate_routes-Mem json nodes m ws path raw f k in
                  (w, g, subst (Memᴰ w) all (Memᴰ.tail i))
            ]
      ]
    ]

overlaps_sym : (p q : Prefix) → overlaps p q ≡ overlaps q p
unfolding overlaps
overlaps_sym p q =
    let e : min p.bits q.bits ≡ min q.bits p.bits = omega arith in
    rw e (==_sym (p.addr / block (min q.bits p.bits)) (q.addr / block (min q.bits p.bits)))
  where
    ==_sym : (a b : ℕ) → (a == b) ≡ (b == a)
    ==_sym a b = ground arith

clash_sym : (v w : ValidatedRouteOwnership) → clash v w ≡ false → clash w v ≡ false
unfolding clash
clash_sym v w h = ground (
  arith,
  overlaps_sym v.prefix w.prefix,
  bytes_eq_iff v.owner w.owner,
  bytes_eq_iff w.owner v.owner,
)

clash_self : (v : ValidatedRouteOwnership) → clash v v ≡ false
unfolding clash
clash_self v = rw (bytes_eq_refl v.owner) refl

clashes-Mem :
    (v w : ValidatedRouteOwnership) (vs : List ValidatedRouteOwnership)
    → clashes v vs ≡ false
    → Memᴰ w vs
    → clash v w ≡ false
unfolding clashes
clashes-Mem v w [] h n = absurd (nothing-Memᴰ n)
clashes-Mem v w (u ∷ vs) h (Memᴰ.head same) = rw same (ground arith)
clashes-Mem v w (u ∷ vs) h (Memᴰ.tail n) = clashes-Mem v w vs (ground arith) n

any_clash-Mem :
    (v w : ValidatedRouteOwnership) (vs : List ValidatedRouteOwnership)
    → any_clash vs ≡ false
    → Memᴰ v vs
    → Memᴰ w vs
    → clash v w ≡ false
unfolding any_clash
any_clash-Mem v w [] h n m = absurd (nothing-Memᴰ n)
any_clash-Mem v w (u ∷ vs) h (Memᴰ.head e) (Memᴰ.head f) = rw (e, f) (clash_self u)
any_clash-Mem v w (u ∷ vs) h (Memᴰ.head e) (Memᴰ.tail m) =
    rw e (clashes-Mem u w vs (ground arith) m)
any_clash-Mem v w (u ∷ vs) h (Memᴰ.tail n) (Memᴰ.head f) =
    rw f (clash_sym u v (clashes-Mem u v vs (ground arith) n))
any_clash-Mem v w (u ∷ vs) h (Memᴰ.tail n) (Memᴰ.tail m) = any_clash-Mem v w vs (ground arith) n m

module _ (bolt : Bolt) (json : Json) (sorter : Sorter) (canonical : bolt.Bucket)
    (ops : List Operation) (view : Bytes → Option Bytes)
    (same : (k : Bytes) → view k ≡ effects_of k ops (bolt.get k canonical)) where
  abbrev nodes : Dict Bytes
  nodes = resulting_prefix_records bolt canonical nodes_prefix ops

  abbrev routes : Dict Bytes
  routes = resulting_prefix_records bolt canonical routes_prefix ops

  node_view : (owner : Bytes) → lookup (node_path owner) nodes ≡ view (node_path owner)
  node_view owner =
      lookup-resulting bolt canonical nodes_prefix (node_path owner) ops
        (unfold node_path in has_prefix-append nodes_prefix (owner ++ codes ".json"))
      ∙ sym (same (node_path owner))

  -- A route of the state behind the command is one of the validated ones.
  route_at-Mem :
      (vs : List ValidatedRouteOwnership) (path : Bytes)
      → validate_routes json (λ k. lookup k nodes) routes ≡ ok vs
      → (route_at json view path ≡ none)
        ⊎ ((v : ValidatedRouteOwnership) × (route_at json view path ≡ some (ok v)) × Memᴰ v vs)
  unfolding route_at
  route_at-Mem vs path checked = elim (Bool-cases (has_prefix path routes_prefix)) [
    | inr e ↦ inl (rw e refl)
    | inl e ↦ elim (Option-cases (view path)) [
      | inl f ↦ inl (rw (e, f) refl)
      | inr (raw, f) ↦
          let there : lookup path routes ≡ some raw =
            lookup-resulting bolt canonical routes_prefix path ops e ∙ sym (same path) ∙ f in
          let (v, g, n) =
            validate_routes-Mem json (λ k. lookup k nodes) routes vs path raw checked
              (lookup-Mem path raw routes there) in
          let judged =
            sym (validate_route-agree json (λ k. lookup k nodes) view path raw node_view) ∙ g in
          inr (v, rw (e, f, judged) refl, n)
    ]
  ]

  pub accepted-Checked :
      validate_route_ownership bolt json sorter canonical ops ≡ ok tt → Checked json view
  unfolding validate_route_ownership may_be apart
  accepted-Checked h = elim (Result-cases (validate_routes json (λ k. lookup k nodes) routes)) [
    | inr (x, e) ↦ absurd (ground arith)
    | inl (vs, e) ↦
        let sorted = sorter.sort path_before vs in
        let free : any_clash sorted ≡ false = ground arith in
        let into = λ (v : ValidatedRouteOwnership) (n : Memᴰ v vs).
          Memᴰ-of_Permᴰ (Permᴰ.symm (sorter.sort-perm path_before vs)) n in
        record {
          valid = λ path. elim (route_at-Mem vs path e) [
            | inl f ↦ rw f refl
            | inr (v, f, n) ↦ rw f refl
          ];
          disjoint = λ p q. elim (route_at-Mem vs p e) [
            | inl f ↦ rw f refl
            | inr (v, f, n) ↦ elim (route_at-Mem vs q e) [
              | inl g ↦ rw (f, g) refl
              | inr (w, g, m) ↦
                  rw (f, g) (rw (any_clash-Mem v w sorted free (into v n) (into w m)) refl)
            ]
          ];
        }
  ]
