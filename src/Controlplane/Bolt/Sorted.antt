-- ===== src/Controlplane/Bolt/Sorted.antt =====
-- A bucket as a sorted association list: an instance of the interface to bbolt.
use mathlib.Core.Path.{subst}
use bpc.Base.{
  ◌<◌, ◌≤◌, Bool, true, false, ◌||◌, [], ◌∷◌, ltb, ◌==◌, if◌then◌else◌, length, Bytes, bytes_eq,
  bytes_eq_iff, bytes_lt, bytes_lt_transitive, bytes_lt_total, All, Option, none, some, ◌≡◌, refl,
  arith, Bool-cases, inl, inr,
}
use bpc.Base.Dict.{Dict, lookup, delete, lookup-delete}
use bpc.Controlplane.Bolt.{Ascending, Bolt}

unfoldable pub place : Bytes → Bytes → Dict Bytes → Dict Bytes
place k v [] = (k, v) ∷ []
place k v ((j, w) ∷ m) =
    let rest = place k v m in
    if bytes_eq j k then (k, v) ∷ m else if bytes_lt k j then (k, v) ∷ (j, w) ∷ m else (j, w) ∷ rest

Above : Bytes → Dict Bytes → Type 0
Above k m = All (λ e. bytes_lt k e.0 ≡ true) m

Above-transitive : (k j : Bytes) (m : Dict Bytes) → bytes_lt k j ≡ true → Above j m → Above k m
unfolding Above
Above-transitive k j [] e h = tt
Above-transitive k j ((i, w) ∷ m) e h =
    (bytes_lt_transitive k j i e h.0, Above-transitive k j m e h.1)

Above-place :
    (i k v : Bytes) (m : Dict Bytes) → bytes_lt i k ≡ true → Above i m → Above i (place k v m)
unfolding Above place
Above-place i k v [] e h = (e, tt)
Above-place i k v ((j, w) ∷ m) e h = elim (Bool-cases (bytes_eq j k)) [
  | inl f ↦ rw f (e, h.1)
  | inr f ↦ elim (Bool-cases (bytes_lt k j)) [
    | inl g ↦ rw (f, g) (e, h)
    | inr g ↦ rw (f, g) (h.0, Above-place i k v m e h.1)
  ]
]

pub place-Ascending : (k v : Bytes) (m : Dict Bytes) → Ascending m → Ascending (place k v m)
unfolding place Above
place-Ascending k v [] h = (tt, tt)
place-Ascending k v ((j, w) ∷ m) h = elim (Bool-cases (bytes_eq j k)) [
  | inl f ↦ let same : j ≡ k = (bytes_eq_iff j k).0 f in rw f (rw same at h.0, h.1)
  | inr f ↦ elim (Bool-cases (bytes_lt k j)) [
    | inl g ↦ rw (f, g) ((g, Above-transitive k j m g h.0), h)
    | inr g ↦
        let after = bytes_lt_total k j g (ground (arith, bytes_eq_iff j k, bytes_eq_iff k j)) in
        rw (f, g) (Above-place j k v m after h.0, place-Ascending k v m h.1)
  ]
]

lookup-place :
    (k v : Bytes) (m : Dict Bytes) (j : Bytes)
    → lookup j (place k v m) ≡ (if bytes_eq k j then some v else lookup j m)
unfolding place lookup
lookup-place k v [] j = refl
lookup-place k v ((i, w) ∷ m) j =
    ground (arith, bytes_eq_iff k j, bytes_eq_iff i k, bytes_eq_iff i j, lookup-place k v m j)

Above-delete : (i k : Bytes) (m : Dict Bytes) → Above i m → Above i (delete k m)
unfolding Above delete
Above-delete i k [] h = tt
Above-delete i k ((j, w) ∷ m) h = elim (Bool-cases (bytes_eq j k)) [
  | inl f ↦ rw f (Above-delete i k m h.1)
  | inr f ↦ rw f (h.0, Above-delete i k m h.1)
]

pub delete-Ascending : (k : Bytes) (m : Dict Bytes) → Ascending m → Ascending (delete k m)
unfolding delete Above
delete-Ascending k [] h = tt
delete-Ascending k ((j, w) ∷ m) h = elim (Bool-cases (bytes_eq j k)) [
  | inl f ↦ rw f (delete-Ascending k m h.1)
  | inr f ↦ rw f (Above-delete j k m h.0, delete-Ascending k m h.1)
]

abbrev pub SortedBucket : Type 0
SortedBucket = (m : Dict Bytes) × Ascending m

-- Keys have 1 to 32768 bytes.
abbrev pub bad_key : Bytes → Bool
bad_key k = length k == 0 || ltb 32768 (length k)

unfoldable pub put_sorted : Bytes → Bytes → SortedBucket → Option SortedBucket
unfolding place
put_sorted k v b = if bad_key k then none else some (place k v b.0, place-Ascending k v b.0 b.1)

unfoldable pub delete_sorted : Bytes → SortedBucket → Option SortedBucket
delete_sorted k b = some (delete k b.0, delete-Ascending k b.0 b.1)

-- A key of a good length is put, and any key is deleted.
pub put_sorted_total :
    (k v : Bytes) (b : SortedBucket)
    → bad_key k ≡ false
    → (b' : SortedBucket) × (put_sorted k v b ≡ some b')
unfolding put_sorted
put_sorted_total k v b h = ((place k v b.0, place-Ascending k v b.0 b.1), rw h refl)

pub fits_total :
    (k v : Bytes) (b : SortedBucket)
    → 0 < length k
    → length k ≤ 32768
    → length v ≤ 2147483646
    → (b' : SortedBucket) × (put_sorted k v b ≡ some b')
fits_total k v b some_key short small = put_sorted_total k v b (ground arith)

pub delete_sorted_total :
    (k : Bytes) (b : SortedBucket) → (b' : SortedBucket) × (delete_sorted k b ≡ some b')
unfolding delete_sorted
delete_sorted_total k b = ((delete k b.0, delete-Ascending k b.0 b.1), refl)

pub get-put_sorted :
    (k v : Bytes) (b b' : SortedBucket)
    → put_sorted k v b ≡ some b'
    → (j : Bytes) → lookup j b'.0 ≡ (if bytes_eq k j then some v else lookup j b.0)
unfolding put_sorted
get-put_sorted k v b b' h j = elim (Bool-cases (bad_key k)) [
  | inl e ↦ absurd (ground arith)
  | inr e ↦
      let placed : SortedBucket = (place k v b.0, place-Ascending k v b.0 b.1) in
      let made : put_sorted k v b ≡ some placed = rw e refl in
      let same : placed ≡ b' = cc (made, h) in
      subst (λ (c : SortedBucket). lookup j c.0 ≡ (if bytes_eq k j then some v else lookup j b.0))
        same (lookup-place k v b.0 j)
]

pub get-delete_sorted :
    (k : Bytes) (b b' : SortedBucket)
    → delete_sorted k b ≡ some b'
    → (j : Bytes) → lookup j b'.0 ≡ (if bytes_eq k j then none else lookup j b.0)
unfolding delete_sorted
get-delete_sorted k b b' h j =
    let left : SortedBucket = (delete k b.0, delete-Ascending k b.0 b.1) in
    let same : left ≡ b' = cc h in
    subst (λ (c : SortedBucket). lookup j c.0 ≡ (if bytes_eq k j then none else lookup j b.0)) same
      (lookup-delete k j b.0)

pub sorted-Ascending : (b : SortedBucket) → Ascending b.0
sorted-Ascending b = b.1

pub nothing_there : (k : Bytes) → lookup k (let m : Dict Bytes = [] in m) ≡ none
unfolding lookup
nothing_there k = refl

abbrev pub sorted_bolt : Bolt
sorted_bolt = record {
  Bucket = SortedBucket;
  empty = ([], tt);
  get = λ k b. lookup k b.0;
  put = put_sorted;
  delete = delete_sorted;
  entries = λ b. b.0;
  get-empty = nothing_there;
  get-put = get-put_sorted;
  get-delete = get-delete_sorted;
  put_total = fits_total;
  delete_total = delete_sorted_total;
  lookup-entries = λ k b. refl;
  entries-Ascending = sorted-Ascending;
}
