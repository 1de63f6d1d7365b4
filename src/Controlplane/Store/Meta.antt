-- ===== src/Controlplane/Store/Meta.antt =====
-- The numbers of the metadata bucket in internal/controlplane/store.go, behind a write.
use bpc.Base.{ℕ, ◌^◌, ◌<◌, false, Bytes, bytes_eq, bytes_eq_refl, some, ◌≡◌, refl, ◌∙◌}
use bpc.Controlplane.RaftLog.{u64key}
use bpc.Controlplane.RaftLog.RoundTrip.{decode_u64-u64key}
use bpc.Controlplane.Bolt.{Bolt}
use bpc.Controlplane.Store.{meta_u64}

module _ (bolt : Bolt) where
  open bolt use {Bucket, get, put, get-put}

  -- The number that was written.
  pub meta_u64-put :
      (key : Bytes) (v : ℕ) (m m' : Bucket)
      → put key (u64key v) m ≡ some m'
      → v < 256 ^ 8
      → meta_u64 bolt key m' ≡ v
  unfolding meta_u64
  meta_u64-put key v m m' h small =
      let there : get key m' ≡ some (u64key v) =
        get-put key (u64key v) m m' h key ∙ rw (bytes_eq_refl key) refl in
      rw there (decode_u64-u64key v small)

  -- Another number.
  pub meta_u64-other :
      (key j value : Bytes) (m m' : Bucket)
      → put key value m ≡ some m'
      → bytes_eq key j ≡ false
      → meta_u64 bolt j m' ≡ meta_u64 bolt j m
  unfolding meta_u64
  meta_u64-other key j value m m' h other =
      let same : get j m' ≡ get j m = get-put key value m m' h j ∙ rw other refl in rw same refl
