-- ===== src/Controlplane/Machine/Snapshots/Floor.antt =====
-- The revision floor of internal/controlplane: `prepareReplay` records it, and a state that was
-- restored from an older snapshot is not exported.
use bpc.Base.{
  ℕ, ◌^◌, ◌<◌, Bool, true, false, Bytes, bytes_eq, ltb, map, some, ok, err, Bool-cases,
  Option-cases, inl, inr, ◌≡◌, refl, sym, ◌∙◌, ap, arith,
}
use bpc.Controlplane.RaftLog.{u64key}
use bpc.Controlplane.Bolt.{Bolt}
use bpc.Controlplane.Store.{
  Store, key_revision, key_schema, key_applied_index, key_revision_floor, meta_u64, revision,
  revision_floor, prepare_replay,
}
use bpc.Controlplane.Store.Floor.{prepared-floor}
use bpc.Controlplane.Store.Meta.{meta_u64-put, meta_u64-other}
use bpc.Controlplane.Machine.{Snapshot, Outside}
use bpc.Controlplane.Machine.Snapshots.{
  below_floor, key_of, all_accepted, sorted_paths, put_paths, restore_entries,
  check_snapshot_revision_floor, export_snapshot,
}

module _ (bolt : Bolt) (out : Outside) where
  open bolt use {Bucket, get, put, delete}

  meta_u64-delete :
      (key j : Bytes) (m m' : Bucket)
      → delete key m ≡ some m'
      → bytes_eq key j ≡ false
      → meta_u64 bolt j m' ≡ meta_u64 bolt j m
  unfolding meta_u64
  meta_u64-delete key j m m' h other =
      let same : get j m' ≡ get j m = bolt.get-delete key m m' h j ∙ rw other refl in rw same refl

  restored-floor :
      (s s' : Store bolt) (envelope : Snapshot)
      → envelope.revision < 256 ^ 8
      → restore_entries bolt out s envelope ≡ ok s'
      → (revision bolt s' ≡ envelope.revision) × (revision_floor bolt s' ≡ revision_floor bolt s)
  unfolding restore_entries revision revision_floor
  restored-floor s s' envelope small h =
      elim (Bool-cases (all_accepted (map key_of envelope.entries))) [
        | inr e ↦ absurd (ground arith)
        | inl e ↦
            elim (Option-cases (
              put_paths bolt out (sorted_paths out envelope.entries) envelope.entries bolt.empty)) [
                | inl f ↦ absurd (ground arith)
                | inr (c, f) ↦ elim (Option-cases (delete key_applied_index s.meta)) [
                  | inl g ↦ absurd (ground arith)
                  | inr (m1, g) ↦
                      elim (Option-cases (put key_revision (u64key envelope.revision) m1)) [
                        | inl i ↦ absurd (ground arith)
                        | inr (m2, i) ↦
                            elim (Option-cases
                              (put key_schema (u64key envelope.schema_version) m2)) [
                                | inl j ↦ absurd (ground arith)
                                | inr (m3, j) ↦
                                    let same : m3 ≡ s'.meta = ground arith in
                                    (
                                      ap (meta_u64 bolt key_revision) (sym same)
                                          ∙ meta_u64-other bolt key_schema key_revision
                                              (u64key envelope.schema_version) m2 m3 j
                                              (unfold bytes_eq in refl)
                                          ∙ meta_u64-put bolt key_revision envelope.revision m1 m2 i
                                              small,
                                      ap (meta_u64 bolt key_revision_floor) (sym same)
                                          ∙ meta_u64-other bolt key_schema key_revision_floor
                                              (u64key envelope.schema_version) m2 m3 j
                                              (unfold bytes_eq in refl)
                                          ∙ meta_u64-other bolt key_revision key_revision_floor
                                              (u64key envelope.revision) m1 m2 i
                                              (unfold bytes_eq in refl)
                                          ∙ meta_u64-delete key_applied_index key_revision_floor
                                              s.meta m1 g (unfold bytes_eq in refl),
                                    )
                              ]
                      ]
                ]
              ]
      ]

  below_floor-export :
      (s : Store bolt)
      → revision bolt s < revision_floor bolt s
      → export_snapshot bolt out s ≡ err below_floor
  unfolding export_snapshot check_snapshot_revision_floor
  below_floor-export s h =
      let below : ltb (revision bolt s) (revision_floor bolt s) ≡ true = ground arith in
      rw below refl

  -- A store that `prepareReplay` has passed, and that is then restored from a snapshot of an older
  -- revision than it had, is not exported: its revision is below the floor. The revisions and the
  -- floor are uint64s.
  pub prepared_restored-export :
      (s s1 s2 : Store bolt) (has_snapshots : Bool) (floor : ℕ) (envelope : Snapshot)
      → revision bolt s < 256 ^ 8
      → revision_floor bolt s < 256 ^ 8
      → envelope.revision < revision bolt s
      → prepare_replay bolt s has_snapshots ≡ (s1, ok floor)
      → restore_entries bolt out s1 envelope ≡ ok s2
      → export_snapshot bolt out s2 ≡ err below_floor
  prepared_restored-export s s1 s2 has_snapshots floor envelope small small_floor older prepared
        restored =
      let (least, recorded) =
        prepared-floor bolt s s1 has_snapshots floor small small_floor prepared in
      let (new, kept) = restored-floor s1 s2 envelope (omega arith) restored in
      below_floor-export s2 (omega (arith, least, recorded, new, kept))
