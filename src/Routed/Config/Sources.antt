-- ===== src/Routed/Config/Sources.antt =====
-- `SourcePaths` of internal/routed/config.go: which paths it answers.
use mathlib.Core.List.{Memᴰ}
use mathlib.Core.List.Permᴰ
use mathlib.Core.Path.{subst}
use bpc.Base.{
  ◌≤◌, Bool, true, List, [], ◌∷◌, length, get_or, get_elem?, get_elem?-get_or, some, ◌≡◌, ◌↔◌, sym,
  arith, Bool-cases, inl, inr, Bytes, bytes_eq_iff,
}
use bpc.Base.Float.{Float}
use bpc.Base.Sort.{Sorter, Memᴰ-of_Permᴰ, nothing-Memᴰ}
use bpc.Routed.Config.{
  Route, RoutePath, RoutingConfig, is_source_path, keep_paths, better_path, source_paths,
}

-- A configured path of the route that starts at the Node.
pub record IsSource {F : Type 0} (c : RoutingConfig F) (local : Bytes) (route : Route)
    (p : RoutePath F) : Type 0 where
  pub listed : Memᴰ p c.paths
  pub long : 2 ≤ length p.hops
  pub starts : get_elem? p.hops 0 ≡ some local
  pub owner : p.owner_node_id ≡ route.owner_node_id
  pub cidr : p.cidr ≡ route.cidr

is_source_path_iff :
    {F : Type 0} (local : Bytes) (route : Route) (p : RoutePath F)
    → (is_source_path local route p ≡ true) ↔ (
        (2 ≤ length p.hops)
        × (get_elem? p.hops 0 ≡ some local)
        × (p.owner_node_id ≡ route.owner_node_id)
        × (p.cidr ≡ route.cidr))
unfolding is_source_path
is_source_path_iff local route p =
    let first = get_elem?-get_or p.hops 0 [] in
    let starts = bytes_eq_iff (get_or p.hops 0 []) local in
    let owners = bytes_eq_iff p.owner_node_id route.owner_node_id in
    let cidrs = bytes_eq_iff p.cidr route.cidr in
    (λ h. ground (arith, first), λ h. ground (arith, first))

module _ {F : Type 0} (test : RoutePath F → Bool) where
  kept_first :
      (p q : RoutePath F) (ps rest : List (RoutePath F))
      → (Memᴰ p rest → Memᴰ p ps × (test p ≡ true))
      → test q ≡ true
      → Memᴰ p (q ∷ rest)
      → Memᴰ p (q ∷ ps) × (test p ≡ true)
  kept_first p q ps rest below e (Memᴰ.head same) =
      (Memᴰ.head same, subst (λ r. test r ≡ true) (sym same) e)
  kept_first p q ps rest below e (Memᴰ.tail n) = let (k, t) = below n in (Memᴰ.tail k, t)

  keep_paths-Mem :
      (p : RoutePath F) (ps : List (RoutePath F))
      → Memᴰ p (keep_paths test ps)
      → Memᴰ p ps × (test p ≡ true)
  unfolding keep_paths
  keep_paths-Mem p [] m = absurd (nothing-Memᴰ m)
  keep_paths-Mem p (q ∷ ps) m = elim (Bool-cases (test q)) [
    | inl e ↦ kept_first p q ps (keep_paths test ps) (λ n. keep_paths-Mem p ps n) e (rw e at m)
    | inr e ↦ let (n, t) = keep_paths-Mem p ps (rw e at m) in (Memᴰ.tail n, t)
  ]

  Mem-keep_paths :
      (p : RoutePath F) (ps : List (RoutePath F))
      → Memᴰ p ps
      → test p ≡ true
      → Memᴰ p (keep_paths test ps)
  unfolding keep_paths
  Mem-keep_paths p [] m t = absurd (nothing-Memᴰ m)
  Mem-keep_paths p (q ∷ ps) (Memᴰ.head same) t =
      let first : test q ≡ true = subst (λ r. test r ≡ true) same t in rw first (Memᴰ.head same)
  Mem-keep_paths p (q ∷ ps) (Memᴰ.tail m) t = elim (Bool-cases (test q)) [
    | inl e ↦ rw e (Memᴰ.tail (Mem-keep_paths p ps m t))
    | inr e ↦ rw e (Mem-keep_paths p ps m t)
  ]

-- `SourcePaths` answers exactly the configured paths of the route that start at the Node.
pub source_paths_iff :
    (fl : Float) (sorter : Sorter) (c : RoutingConfig (fl.F)) (local : Bytes) (route : Route)
    (p : RoutePath (fl.F))
    → Memᴰ p (source_paths fl sorter c local route) ↔ IsSource c local route p
unfolding source_paths
source_paths_iff fl sorter c local route p =
    let test = is_source_path local route in
    let kept = keep_paths test c.paths in
    let perm = sorter.sort-perm (better_path fl) kept in
    let facts = is_source_path_iff local route p in
    (
      λ m.
          let (n, t) = keep_paths-Mem test p c.paths (Memᴰ-of_Permᴰ perm m) in
          let (long, starts, owner, cidr) = facts.0 t in
          record { listed = n; long = long; starts = starts; owner = owner; cidr = cidr },
      λ s.
          Memᴰ-of_Permᴰ (Permᴰ.symm perm)
            (Mem-keep_paths test p c.paths s.listed (facts.1 (s.long, s.starts, s.owner, s.cidr))),
    )
