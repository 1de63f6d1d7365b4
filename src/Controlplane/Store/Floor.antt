-- ===== src/Controlplane/Store/Floor.antt =====
-- `prepareReplay` of internal/controlplane/store.go records a floor of the revision.
use bpc.Base.{
  ℕ, ◌^◌, ◌≤◌, ◌<◌, Bool, not, ◌&&◌, ◌||◌, ok, Bool-cases, Option-cases, inl, inr, ◌≡◌, sym, ◌∙◌,
  ap, arith,
}
use bpc.Controlplane.RaftLog.{u64key}
use bpc.Controlplane.Bolt.{Bolt}
use bpc.Controlplane.Store.{
  Store, key_revision, key_applied_index, key_revision_floor, meta_u64, revision, revision_floor,
  well_sized, next_floor, legacy, prepare_replay,
}
use bpc.Controlplane.Store.Meta.{meta_u64-put}

module _ (bolt : Bolt) where
  open bolt use {put}

  -- The floor is that of before or the revision, whichever is greater.
  next_floor_bounds :
      (s : Store bolt)
      → revision bolt s < 256 ^ 8
      → revision_floor bolt s < 256 ^ 8
      → (revision bolt s ≤ next_floor bolt s) × (next_floor bolt s < 256 ^ 8)
  unfolding next_floor
  next_floor_bounds s h k = ground arith

  -- A store that has been prepared for a replay.
  pub prepared-floor :
      (s s' : Store bolt) (has_snapshots : Bool) (floor : ℕ)
      → revision bolt s < 256 ^ 8
      → revision_floor bolt s < 256 ^ 8
      → prepare_replay bolt s has_snapshots ≡ (s', ok floor)
      → (revision bolt s ≤ floor) × (revision_floor bolt s' ≡ floor)
  unfolding prepare_replay revision_floor
  prepared-floor s s' has_snapshots floor small small_floor h =
      let ill =
        not (well_sized bolt key_revision s.meta)
        || (not (well_sized bolt key_applied_index s.meta)
            || not (well_sized bolt key_revision_floor s.meta)) in
      elim (Bool-cases ill) [
        | inl e ↦ absurd (ground arith)
        | inr e ↦ elim (Bool-cases (legacy bolt s && not has_snapshots)) [
          | inl f ↦ absurd (ground arith)
          | inr f ↦
              elim (Option-cases (put key_revision_floor (u64key (next_floor bolt s)) s.meta)) [
                | inl g ↦ absurd (ground arith)
                | inr (m, g) ↦
                    let bounds = next_floor_bounds s small small_floor in
                    let same : next_floor bolt s ≡ floor = ground arith in
                    let meta : m ≡ s'.meta = ground arith in
                    (
                      omega (arith, bounds.0, same),
                      ap (meta_u64 bolt key_revision_floor) (sym meta)
                          ∙ meta_u64-put bolt key_revision_floor (next_floor bolt s) s.meta m g
                              bounds.1
                          ∙ same,
                    )
              ]
        ]
      ]
