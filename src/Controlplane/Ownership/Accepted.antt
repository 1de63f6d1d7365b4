-- ===== src/Controlplane/Ownership/Accepted.antt =====
-- A state which passes `validateRouteOwnershipInvariant` of internal/controlplane/fsm.go has the
-- invariant that it is named for.
use Prim.Native.Nat.{zero, suc, ◌+◌, ◌*◌, ◌-◌, ◌/◌, ◌^◌, min}
use native.Mathlib.Nat.{div-div-eq-div-mul, pow-suc, mul_assoc}
use mathlib.Core.Path.{subst}
use bpc.Base.{
  ℕ, ◌<◌, ◌≤◌, true, false, List, length, Bytes, bytes_eq_iff, has_prefix, Option, some, ok,
  Result-cases, Bool-cases, inl, inr, ◌≡◌, ◌≢◌, refl, sym, ◌∙◌, ap, arith,
}
use bpc.Base.Encoding.{trim_space}
use bpc.Base.Net.{Prefix, masked, contains, overlaps, block, parse_prefix4}
use bpc.Base.Sort.{Sorter}
use bpc.Controlplane.Bolt.{Bolt}
use bpc.Controlplane.Command.{Operation}
use bpc.Controlplane.Ownership.{
  Json, RouteOwnershipRecord, ValidatedRouteOwnership, validate_route, validate_route_ownership,
  clash,
}
use bpc.Controlplane.Ownership.Records.{effects_of}
use bpc.Controlplane.Ownership.Checked.{
  Checked, accepted-Checked, may_be, apart, route_at, routes_prefix,
}
use bpc.Controlplane.Ownership.Owned.{Names, by_owner, by_node, IsRoute, Owned}
use bpc.Controlplane.Ownership.Passed.{validate_route-IsRoute}

route_at-stored :
    (json : Json) (view : Bytes → Option Bytes) (path raw : Bytes)
    → has_prefix path routes_prefix ≡ true
    → view path ≡ some raw
    → route_at json view path ≡ some (validate_route json view path raw)
unfolding route_at
route_at-stored json view path raw e f = rw (e, f) refl

-- A route of a checked state is one that passes.
Checked-valid :
    (json : Json) (view : Bytes → Option Bytes) (path raw : Bytes)
    → Checked json view
    → has_prefix path routes_prefix ≡ true
    → view path ≡ some raw
    → (v : ValidatedRouteOwnership) × (validate_route json view path raw ≡ ok v)
unfolding may_be
Checked-valid json view path raw c e f = elim (Result-cases (validate_route json view path raw)) [
  | inl found ↦ found
  | inr (x, g) ↦ absurd (ground (arith, c.valid path, route_at-stored json view path raw e f))
]

Names-unique :
    (r : RouteOwnershipRecord) (o o' : Bytes)
    → 0 < length o
    → 0 < length o'
    → Names r o
    → Names r o'
    → o ≡ o'
Names-unique r o o' h h' (by_owner a b) (by_owner c d) = sym a ∙ c
Names-unique r o o' h h' (by_owner a b) (by_node c d) = absurd (ground (arith, ap length a))
Names-unique r o o' h h' (by_node a b) (by_owner c d) = absurd (ground (arith, ap length c))
Names-unique r o o' h h' (by_node a b) (by_node c d) = sym b ∙ d

-- The record decides the owner and the prefix.
IsRoute-unique :
    (json : Json) (view : Bytes → Option Bytes) (raw o o' : Bytes) (p p' : Prefix)
    → IsRoute json view raw o p
    → IsRoute json view raw o' p'
    → (o ≡ o') × (p ≡ p')
IsRoute-unique json view raw o o' p p' a b =
    let fields : a.fields ≡ b.fields = ground (arith, a.decoded, b.decoded) in
    let named : Names a.fields o' = subst (λ r. Names r o') (sym fields) b.names in
    let parsed : parse_prefix4 (trim_space a.fields.cidr) ≡ some b.written =
      ap (λ (r : RouteOwnershipRecord). parse_prefix4 (trim_space r.cidr)) fields ∙ b.parses in
    let written : a.written ≡ b.written = ground (arith, a.parses) in
    (
      Names-unique a.fields o o' a.not_blank b.not_blank a.names named,
      a.network ∙ ap masked written ∙ sym b.network,
    )

pow_add : (b k : ℕ) → 2 ^ (b + k) ≡ 2 ^ b * 2 ^ k
pow_add b zero = let same : b + 0 ≡ b = omega arith in rw same (omega arith)
pow_add b (suc k) =
    let next : b + suc k ≡ suc (b + k) = omega arith in
    ap (λ (n : ℕ). 2 ^ n) next
    ∙ pow-suc 2 (b + k)
    ∙ ap (λ (n : ℕ). n * 2) (pow_add b k)
    ∙ mul_assoc (2 ^ b) (2 ^ k) 2
    ∙ ap (λ (n : ℕ). 2 ^ b * n) (sym (pow-suc 2 k))

-- Addresses in the same block are in the same wider block.
wider_block : (b c x y : ℕ) → c ≤ b → x / block b ≡ y / block b → x / block c ≡ y / block c
wider_block b c x y h e =
    let k = (32 - c) - (32 - b) in
    let split : 32 - c ≡ (32 - b) + k = omega arith in
    let size : block c ≡ block b * 2 ^ k = ap (λ (n : ℕ). 2 ^ n) split ∙ pow_add (32 - b) k in
    let wide =
      λ (z : ℕ). ap (λ (n : ℕ). z / n) size ∙ sym (div-div-eq-div-mul z (block b) (2 ^ k)) in
    wide x ∙ ap (λ (n : ℕ). n / 2 ^ k) e ∙ sym (wide y)

-- Prefixes that share an address overlap.
contains-overlaps :
    (p q : Prefix) (a : ℕ) → contains p a ≡ true → contains q a ≡ true → overlaps p q ≡ true
unfolding contains overlaps
contains-overlaps p q a h k =
    let b = min p.bits q.bits in
    let left : p.addr / block b ≡ a / block b =
      wider_block p.bits b p.addr a (omega arith) (ground arith) in
    let right : q.addr / block b ≡ a / block b =
      wider_block q.bits b q.addr a (omega arith) (ground arith) in
    ground (arith, left, right)

apart-contains :
    (v w : ValidatedRouteOwnership) (a : ℕ)
    → apart (some (ok v)) (some (ok w)) ≡ true
    → v.owner ≢ w.owner
    → contains v.prefix a ≡ true
    → contains w.prefix a ≡ false
unfolding apart clash
apart-contains v w a h other c = elim (Bool-cases (contains w.prefix a)) [
  | inr e ↦ e
  | inl e ↦
      let shared = contains-overlaps v.prefix w.prefix a c e in
      absurd (ground (arith, bytes_eq_iff v.owner w.owner, shared))
]

Checked-Owned : (json : Json) (view : Bytes → Option Bytes) → Checked json view → Owned json view
Checked-Owned json view c = record {
  valid = λ path raw e there.
      let (v, passes) = Checked-valid json view path raw c e there in
      (v.owner, v.prefix, validate_route-IsRoute json view path raw v passes);
  disjoint = λ path path' raw raw' o o' p p' a e e' there there' m n other inside.
      let (v, passes) = Checked-valid json view path raw c e there in
      let (w, passes') = Checked-valid json view path' raw' c e' there' in
      let found = route_at-stored json view path raw e there ∙ ap some passes in
      let found' = route_at-stored json view path' raw' e' there' ∙ ap some passes' in
      let free : apart (some (ok v)) (some (ok w)) ≡ true =
        subst (λ x. apart x (some (ok w)) ≡ true) found
          (subst (λ y. apart (route_at json view path) y ≡ true) found' (c.disjoint path path')) in
      let (same, same_prefix) =
        IsRoute-unique json view raw o v.owner p v.prefix m
          (validate_route-IsRoute json view path raw v passes) in
      let (same', same_prefix') =
        IsRoute-unique json view raw' o' w.owner p' w.prefix n
          (validate_route-IsRoute json view path' raw' w passes') in
      let different : v.owner ≢ w.owner = λ z. other (same ∙ z ∙ sym same') in
      rw same_prefix' (
        apart-contains v w a free different
          (subst (λ (x : Prefix). contains x a ≡ true) same_prefix inside));
}

-- A state that a command without conflicts results in.
pub accepted-Owned :
    (bolt : Bolt) (json : Json) (sorter : Sorter) (canonical : bolt.Bucket) (ops : List Operation)
    (view : Bytes → Option Bytes)
    → ((k : Bytes) → view k ≡ effects_of k ops (bolt.get k canonical))
    → validate_route_ownership bolt json sorter canonical ops ≡ ok tt
    → Owned json view
accepted-Owned bolt json sorter canonical ops view same h =
    Checked-Owned json view (accepted-Checked bolt json sorter canonical ops view same h)
