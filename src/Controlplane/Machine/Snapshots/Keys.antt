-- ===== src/Controlplane/Machine/Snapshots/Keys.antt =====
-- The sorted paths of a snapshot of internal/controlplane/fsm.go name exactly its entries.
use mathlib.Core.List.{Memᴰ}
use mathlib.Core.List.Permᴰ
use bpc.Base.{
  true, false, List, [], ◌∷◌, map, has, Bytes, bytes_eq, bytes_eq_iff, bytes_eq_refl, bytes_lt,
  none, some, Bool-cases, inl, inr, ◌≡◌, refl, arith,
}
use bpc.Base.Dict.{Dict, lookup}
use bpc.Base.Sort.{Sorter, Memᴰ-of_Permᴰ, nothing-Memᴰ}
use bpc.Controlplane.Machine.Snapshots.{key_of}

has-Mem : (k : Bytes) (ks : List Bytes) → has k ks ≡ true → Memᴰ k ks
unfolding has
has-Mem k [] h = absurd (ground arith)
has-Mem k (j ∷ ks) h = elim (Bool-cases (bytes_eq k j)) [
  | inl e ↦ Memᴰ.head ((bytes_eq_iff k j).0 e)
  | inr e ↦ Memᴰ.tail (has-Mem k ks (rw e at h))
]

Mem-has : (k : Bytes) (ks : List Bytes) → Memᴰ k ks → has k ks ≡ true
unfolding has
Mem-has k [] n = absurd (nothing-Memᴰ n)
Mem-has k (j ∷ ks) (Memᴰ.head e) = rw (← e) (rw (bytes_eq_refl k) refl)
Mem-has k (j ∷ ks) (Memᴰ.tail n) = ground (arith, Mem-has k ks n)

pub has-sorted :
    (sorter : Sorter) (k : Bytes) (ks : List Bytes) → has k (sorter.sort bytes_lt ks) ≡ has k ks
has-sorted sorter k ks =
    let perm = sorter.sort-perm bytes_lt ks in
    let there : has k (sorter.sort bytes_lt ks) ≡ true → has k ks ≡ true =
      λ h. Mem-has k ks (Memᴰ-of_Permᴰ perm (has-Mem k _ h)) in
    let back : has k ks ≡ true → has k (sorter.sort bytes_lt ks) ≡ true =
      λ h. Mem-has k _ (Memᴰ-of_Permᴰ (Permᴰ.symm perm) (has-Mem k ks h)) in
    ground (arith, there, back)

-- A path is among the keys exactly if it has an entry.
pub has-keys-some :
    (k : Bytes) (m : Dict Bytes) → has k (map key_of m) ≡ true → (v : Bytes) × (lookup k m ≡ some v)
unfolding has lookup
has-keys-some k [] h = absurd (ground arith)
has-keys-some k ((j, v) ∷ m) h = elim (Bool-cases (bytes_eq j k)) [
  | inl e ↦ (v, rw e refl)
  | inr e ↦
      let differ : bytes_eq k j ≡ false = ground (arith, bytes_eq_iff j k, bytes_eq_iff k j) in
      let (w, f) = has-keys-some k m (rw differ at h) in (w, rw e f)
]

pub has-keys-none : (k : Bytes) (m : Dict Bytes) → has k (map key_of m) ≡ false → lookup k m ≡ none
unfolding has lookup
has-keys-none k [] h = refl
has-keys-none k ((j, v) ∷ m) h =
    ground (arith, bytes_eq_iff j k, bytes_eq_iff k j, has-keys-none k m)
