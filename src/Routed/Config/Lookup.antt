-- ===== src/Routed/Config/Lookup.antt =====
-- `RouteFor` of internal/routed/config.go finds the longest prefix.
use mathlib.Core.List.{Memᴰ}
use mathlib.Core.List.Permᴰ
use mathlib.Core.Path.{subst}
use bpc.Base.{
  ℕ, ◌≤◌, true, false, List, [], ◌∷◌, some, ok, ◌≡◌, refl, sym, arith, List-cases, Result-cases,
  Bool-cases, inl, inr, Bytes, bytes_eq_iff,
}
use bpc.Base.Net.{Prefix, contains}
use bpc.Base.Sort.{Sorter, StrictWeak, sort-head, sort_min, nothing-Memᴰ, Memᴰ-of_Permᴰ}
use bpc.Routed.Config.{
  Route, RoutePath, RoutingConfig, route_prefix, matches, longer, route_for, find_path,
  transit_path,
}

longer-StrictWeak : StrictWeak longer
longer-StrictWeak = record {
  irreflexive = λ a. ground arith;
  transitive = λ a b c h k. ground arith;
  comparable = λ a b c h k. ground arith;
}

-- A route that holds the address, with its prefix.
pub record Holds (routes : List Route) (addr : ℕ) (r : Route) (p : Prefix) : Type 0 where
  pub listed : Memᴰ r routes
  pub parsed : route_prefix r ≡ ok p
  pub inside : contains p addr ≡ true

-- One round of the loop.
data Round (r : Route) (rs : List Route) (addr : ℕ) : Type 0 where
  taken :
      (p : Prefix)
      → route_prefix r ≡ ok p
      → contains p addr ≡ true
      → matches (r ∷ rs) addr ≡ (r, p) ∷ matches rs addr
      → Round r rs addr
  skipped :
      ((p : Prefix) → route_prefix r ≡ ok p → contains p addr ≡ false)
      → matches (r ∷ rs) addr ≡ matches rs addr
      → Round r rs addr

round : (r : Route) (rs : List Route) (addr : ℕ) → Round r rs addr
unfolding matches
round r rs addr = elim (Result-cases (route_prefix r)) [
  | inl (p, e) ↦ elim (Bool-cases (contains p addr)) [
    | inl inside ↦ taken p e inside (rw (e, matches) (rw inside))
    | inr outside ↦ skipped (λ q f. ground arith) (rw (e, matches) (rw outside))
  ]
  | inr (x, e) ↦ skipped (λ q f. cc) (rw (e, matches))
]

Holds-cons :
    (s : Route) (routes : List Route) (addr : ℕ) {r : Route} {p : Prefix}
    → Holds routes addr r p
    → Holds (s ∷ routes) addr r p
Holds-cons s routes addr h = record {
  listed = Memᴰ.tail h.listed;
  parsed = h.parsed;
  inside = h.inside;
}

Mem-Holds :
    (s : Route) (routes : List Route) (addr : ℕ) (p : Prefix) {q : Route × Prefix}
    → route_prefix s ≡ ok p
    → contains p addr ≡ true
    → (Memᴰ q (matches routes addr) → Holds routes addr q.0 q.1)
    → Memᴰ q ((s, p) ∷ matches routes addr)
    → Holds (s ∷ routes) addr q.0 q.1
Mem-Holds s routes addr p {q} e inside later (Memᴰ.head f) =
    subst (λ (t : Route × Prefix). Holds (s ∷ routes) addr t.0 t.1) (sym f)
      (record { listed = Memᴰ.head refl; parsed = e; inside = inside })
Mem-Holds s routes addr p {q} e inside later (Memᴰ.tail m) = Holds-cons s routes addr (later m)

matches-Holds :
    (routes : List Route) (addr : ℕ) (q : Route × Prefix)
    → Memᴰ q (matches routes addr)
    → Holds routes addr q.0 q.1
matches-Holds [] addr q m = unfold matches in elim m [ ]
matches-Holds (s ∷ rs) addr q m = elim (round s rs addr) [
  | taken p e inside eq ↦
      Mem-Holds s rs addr p e inside (matches-Holds rs addr q) (subst (Memᴰ q) eq m)
  | skipped out eq ↦ Holds-cons s rs addr (matches-Holds rs addr q (subst (Memᴰ q) eq m))
]

Round-Mem :
    (s : Route) (rs : List Route) (addr : ℕ) {r : Route} {p : Prefix}
    → (Memᴰ r rs → Memᴰ (r, p) (matches rs addr))
    → Round s rs addr
    → Memᴰ r (s ∷ rs)
    → route_prefix r ≡ ok p
    → contains p addr ≡ true
    → Memᴰ (r, p) (matches (s ∷ rs) addr)
Round-Mem s rs addr {r} {p} later (taken q e inside eq) (Memᴰ.head f) parsed holds =
    subst (Memᴰ (r, p)) (sym eq) (Memᴰ.head (ground arith))
Round-Mem s rs addr {r} {p} later (taken q e inside eq) (Memᴰ.tail m) parsed holds =
    subst (Memᴰ (r, p)) (sym eq) (Memᴰ.tail (later m))
Round-Mem s rs addr {r} {p} later (skipped out eq) (Memᴰ.head f) parsed holds =
    absurd (cc (out p (cc)))
Round-Mem s rs addr {r} {p} later (skipped out eq) (Memᴰ.tail m) parsed holds =
    subst (Memᴰ (r, p)) (sym eq) (later m)

Holds-matches :
    (routes : List Route) (addr : ℕ) (r : Route) (p : Prefix)
    → Memᴰ r routes
    → route_prefix r ≡ ok p
    → contains p addr ≡ true
    → Memᴰ (r, p) (matches routes addr)
Holds-matches [] addr r p m parsed inside = elim m [ ]
Holds-matches (s ∷ rs) addr r p m parsed inside =
    Round-Mem s rs addr (λ n. Holds-matches rs addr r p n parsed inside) (round s rs addr) m parsed
      inside

-- What `route_for` finds: a configured route whose prefix holds the address.
pub route_for-Holds :
    {F : Type 0} (sorter : Sorter) (c : RoutingConfig F) (addr : ℕ) (r : Route)
    → route_for sorter c addr ≡ some r
    → (p : Prefix) × Holds c.routes addr r p
unfolding route_for
route_for-Holds sorter c addr r h = elim (List-cases (sorter.sort longer (matches c.routes addr))) [
  | inl e ↦ absurd (ground arith)
  | inr (q, rest, e) ↦
      let all = matches c.routes addr in
      let same : q.0 ≡ r = ground arith in
      let holds = matches-Holds c.routes addr q (sort-head sorter longer longer-StrictWeak all e) in
      (q.1, subst (λ t. Holds c.routes addr t q.1) same holds)
]

-- Where a configured route holds the address, the look-up succeeds, and the route that it finds
-- holds the address by a prefix that is at least as long.
pub route_for-longest :
    {F : Type 0} (sorter : Sorter) (c : RoutingConfig F) (addr : ℕ) (r : Route) (p : Prefix)
    → Memᴰ r c.routes
    → route_prefix r ≡ ok p
    → contains p addr ≡ true
    → (best : Route) × (q : Prefix) × (route_for sorter c addr ≡ some best)
      × Holds c.routes addr best q
      × (p.bits ≤ q.bits)
unfolding route_for
route_for-longest sorter c addr r p m parsed inside =
    let all = matches c.routes addr in
    let matched = Holds-matches c.routes addr r p m parsed inside in
    let sorted = λ (t : Route × Prefix) (n : Memᴰ t all).
      Memᴰ-of_Permᴰ (Permᴰ.symm (sorter.sort-perm longer all)) n in
    elim (List-cases (sorter.sort longer all)) [
      | inl e ↦ absurd (nothing-Memᴰ (subst (Memᴰ (r, p)) e (sorted (r, p) matched)))
      | inr (q, rest, e) ↦
          let holds =
            matches-Holds c.routes addr q (sort-head sorter longer longer-StrictWeak all e) in
          let least = sort_min sorter longer longer-StrictWeak all e matched in
          (q.0, q.1, rw e, holds, ground (arith, least))
    ]

find_path-id :
    {F : Type 0} (ps : List (RoutePath F)) (id : Bytes) (p : RoutePath F)
    → find_path ps id ≡ some p
    → p.id ≡ id
unfolding find_path
find_path-id [] id p h = absurd (ground arith)
find_path-id (q ∷ ps) id p h = ground (arith, bytes_eq_iff q.id id, find_path-id ps id p)

pub transit_path-id :
    {F : Type 0} (c : RoutingConfig F) (id : Bytes) (p : RoutePath F)
    → transit_path c id ≡ some p
    → p.id ≡ id
unfolding transit_path
transit_path-id c id p h = find_path-id c.transit_paths id p h
