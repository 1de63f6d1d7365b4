-- ===== src/Controlplane/Bolt.antt =====
-- go.etcd.io/bbolt, which the repository does not hold, as an interface: a bucket, what a cursor
-- shows of it, and the documented behaviour that internal/controlplane relies on.
pub mod Sorted
use bpc.Base.{
  ◌<◌, ◌≤◌, length, Bool, true, false, List, [], ◌∷◌, if◌then◌else◌, Bytes, bytes_eq, bytes_lt, All,
  Option, none, some, ◌≡◌,
}
use bpc.Base.Dict.{Dict, lookup}

-- The keys of a cursor come in byte order, each once.
abbrev pub Ascending : Dict Bytes → Type 0
Ascending [] = Unit
Ascending ((k, v) ∷ m) = All (λ e. bytes_lt k e.0 ≡ true) m × Ascending m

-- `none` is an error. The database is open for writing.
pub record Bolt : Type 1 where
  pub Bucket : Type 0
  pub empty : Bucket
  pub get : Bytes → Bucket → Option Bytes
  pub put : Bytes → Bytes → Bucket → Option Bucket
  pub delete : Bytes → Bucket → Option Bucket
  pub entries : Bucket → Dict Bytes
  pub get-empty : (k : Bytes) → get k empty ≡ none
  pub get-put :
      (k v : Bytes) (b b' : Bucket)
      → put k v b ≡ some b'
      → (j : Bytes) → get j b' ≡ (if bytes_eq k j then some v else get j b)
  pub get-delete :
      (k : Bytes) (b b' : Bucket)
      → delete k b ≡ some b'
      → (j : Bytes) → get j b' ≡ (if bytes_eq k j then none else get j b)
  -- A key of 1 to 32768 bytes with a value below 2 GB is put; nothing stops a deletion.
  pub put_total :
      (k v : Bytes) (b : Bucket)
      → 0 < length k
      → length k ≤ 32768
      → length v ≤ 2147483646
      → (b' : Bucket) × (put k v b ≡ some b')
  pub delete_total : (k : Bytes) (b : Bucket) → (b' : Bucket) × (delete k b ≡ some b')
  pub lookup-entries : (k : Bytes) (b : Bucket) → lookup k (entries b) ≡ get k b
  pub entries-Ascending : (b : Bucket) → Ascending (entries b)
