-- ===== src/Controlplane/Machine/Metadata.antt =====
-- The numbers that the transaction of `Apply` in internal/controlplane/fsm.go writes beside the
-- canonical state.
use bpc.Base.{
  ℕ, ◌^◌, ◌≤◌, ◌<◌, List, ◌==◌, if◌then◌else◌, bytes_eq, Bytes, length, some, Result, ok, err,
  Option-cases, Bool-cases, inl, inr, ◌≡◌, refl, sym, ◌∙◌, ap, arith,
}
use bpc.Controlplane.RaftLog.{u64key}
use bpc.Controlplane.Bolt.{Bolt}
use bpc.Controlplane.Store.{
  Store, key_revision, key_schema, key_applied_index, meta_u64, revision, schema_version,
  applied_index,
}
use bpc.Controlplane.Store.Logs.{u64key-length}
use bpc.Controlplane.Store.Meta.{meta_u64-put, meta_u64-other}
use bpc.Controlplane.Command.{Operation, Mutation, control_schema_version}
use bpc.Controlplane.Machine.{
  Outside, ApplyError, store_failed, revision_exhausted, Outcome, committed, next_revision,
  put_operations, mark_applied, write_command,
}
use bpc.Controlplane.Machine.Writes.{
  NextRevision, NextRevision-lt, next_revision-some, next_revision-none, Fails, unwritable,
  put_operations-none,
}

module _ (bolt : Bolt) (out : Outside) where
  abbrev pub watermark : ℕ → Store bolt → ℕ
  watermark index s = if index == 0 then applied_index bolt s else index

  pub record Marked (index : ℕ) (s : Store bolt) (m : bolt.Bucket) : Type 0 where
    pub same_revision : meta_u64 bolt key_revision m ≡ revision bolt s
    pub marked : meta_u64 bolt key_applied_index m ≡ watermark index s

  pub mark_applied-Marked :
      (index : ℕ) (s : Store bolt) (m : bolt.Bucket)
      → index < 256 ^ 8
      → mark_applied bolt out index s.meta ≡ some m
      → Marked index s m
  unfolding mark_applied revision applied_index
  mark_applied-Marked index s m small h = elim (Bool-cases (index == 0)) [
    | inl e ↦
        let same : s.meta ≡ m = ground arith in
        record {
          same_revision = ap (meta_u64 bolt key_revision) (sym same);
          marked = rw e (ap (meta_u64 bolt key_applied_index) (sym same));
        }
    | inr e ↦
        let done : bolt.put key_applied_index (u64key index) s.meta ≡ some m = ground arith in
        record {
          same_revision =
              meta_u64-other bolt key_applied_index key_revision (u64key index) s.meta m done
                (unfold bytes_eq in refl);
          marked = rw e (meta_u64-put bolt key_applied_index index s.meta m done small);
        }
  ]

  -- The database takes the numbers of the metadata.
  number_put :
      (key : Bytes) (v : ℕ) (m : bolt.Bucket)
      → 0 < length key
      → length key ≤ 32768
      → (m' : bolt.Bucket) × (bolt.put key (u64key v) m ≡ some m')
  number_put key v m some_key short =
      bolt.put_total key (u64key v) m some_key short (omega (arith, u64key-length v))

  pub mark_applied_total :
      (index : ℕ) (s : Store bolt)
      → (m : bolt.Bucket) × (mark_applied bolt out index s.meta ≡ some m)
  unfolding mark_applied
  mark_applied_total index s = elim (Bool-cases (index == 0)) [
    | inl e ↦ (s.meta, rw e refl)
    | inr e ↦
        let (m, done) = number_put key_applied_index index s.meta (omega arith) (omega arith) in
        (m, rw e done)
  ]

  pub record Written (c : Mutation) (ops : List Operation) (current : ℕ) (s s' : Store bolt)
      (next : ℕ) : Type 0 where
    pub stepped : NextRevision c current next
    pub applied : put_operations bolt out ops s.canonical ≡ some s'.canonical
    pub logs : s'.logs ≡ s.logs
    pub stable : s'.stable ≡ s.stable
    pub new_revision : revision bolt s' ≡ next
    pub new_schema : schema_version bolt s' ≡ control_schema_version
    pub same_index : applied_index bolt s' ≡ applied_index bolt s

  pub data WriteResult (c : Mutation) (ops : List Operation) (current : ℕ) (s : Store bolt)
      : Result ApplyError (Store bolt × Outcome) → Type 0 where
    write_failed : (e : ApplyError) → Fails c ops current e → WriteResult c ops current s (err e)
    write_done :
        (s' : Store bolt) (next : ℕ)
        → Written c ops current s s' next
        → WriteResult c ops current s (ok (s', committed next))

  pub write_command-WriteResult :
      (c : Mutation) (ops : List Operation) (current : ℕ) (s : Store bolt)
      → current < 256 ^ 8
      → c.revision_minimum < 256 ^ 8
      → WriteResult c ops current s (write_command bolt out c ops current s)
  unfolding write_command revision applied_index schema_version
  write_command-WriteResult c ops current s small least =
      elim (Option-cases (next_revision c current)) [
        | inl e ↦
            rw (e, write_command)
              (write_failed revision_exhausted (next_revision-none c ops current e))
        | inr (next, e) ↦ elim (Option-cases (put_operations bolt out ops s.canonical)) [
          | inl p ↦
              let (o, m, bad) = put_operations-none bolt out ops s.canonical p in
              rw (e, write_command) (rw p (write_failed store_failed (unwritable o m bad)))
          | inr (canonical, p) ↦
              let (m1, q) = number_put key_revision next s.meta (omega arith) (omega arith) in
              let (m2, k) =
                number_put key_schema control_schema_version m1 (omega arith) (omega arith) in
              let s' : Store bolt = record s { canonical = canonical; meta = m2 } in
              let stepped = next_revision-some c current next e in
              let fits = NextRevision-lt c current next small least stepped in
              let w : Written c ops current s s' next = record {
                stepped = stepped;
                applied = p;
                logs = refl;
                stable = refl;
                new_revision =
                    meta_u64-other bolt key_schema key_revision (u64key control_schema_version) m1
                      m2 k (unfold bytes_eq in refl)
                    ∙ meta_u64-put bolt key_revision next s.meta m1 q fits;
                new_schema =
                    meta_u64-put bolt key_schema control_schema_version m1 m2 k (omega arith);
                same_index =
                    meta_u64-other bolt key_schema key_applied_index (u64key control_schema_version)
                      m1 m2 k (unfold bytes_eq in refl)
                    ∙ meta_u64-other bolt key_revision key_applied_index (u64key next) s.meta m1 q
                        (unfold bytes_eq in refl);
              } in
              rw (e, write_command) (rw (p, q) (rw k (write_done s' next w)))
        ]
      ]
