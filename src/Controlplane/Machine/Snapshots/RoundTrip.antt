-- ===== src/Controlplane/Machine/Snapshots/RoundTrip.antt =====
-- A snapshot of internal/controlplane/fsm.go restores the state that it was taken of.
use bpc.Base.{
  ℕ, ◌^◌, ◌≤◌, ◌<◌, true, false, ◌||◌, List, [], ◌∷◌, zero, suc, ltb, if◌then◌else◌, map, length,
  take, has, Bytes, bytes_eq, bytes_eq_iff, bytes_eq_refl, none, some, ok, Bool-cases, inl, inr,
  ◌≡◌, refl, sym, ◌∙◌, ap, arith,
}
use bpc.Base.Dict.{Dict, lookup}
use bpc.Controlplane.RaftLog.{u64key, decode_u64}
use bpc.Controlplane.Bolt.{Bolt}
use bpc.Controlplane.Store.{
  Store, key_revision, key_schema, key_applied_index, meta_u64, revision, revision_floor,
  schema_version, applied_index, canonical_entries,
}
use bpc.Controlplane.Store.Meta.{meta_u64-put, meta_u64-other}
use bpc.Controlplane.Command.{control_schema_version}
use bpc.Controlplane.Machine.{Outside}
use bpc.Controlplane.Machine.Snapshots.Keys.{has-sorted, has-keys-some, has-keys-none}
use bpc.Controlplane.Machine.Snapshots.{
  snapshot_limit, key_of, sorted_paths, snapshot_checksum, envelope_of, read_snapshot, all_accepted,
  snapshot_of, check_snapshot_revision_floor, export_snapshot, put_paths, restore_entries,
  restore_store,
}

take_short : (n : ℕ) (xs : Bytes) → length xs ≤ n → take n xs ≡ xs
take_short zero [] h = refl
take_short (suc n) [] h = refl
take_short zero (x ∷ xs) h = absurd (omega arith)
take_short (suc n) (x ∷ xs) h = ap (λ ys. x ∷ ys) (take_short n xs (omega arith))

module _ (bolt : Bolt) (out : Outside) where
  open bolt use {Bucket, get, put, delete, empty}

  -- No write that the restoring of a state needs fails.
  pub record Writable (s : Store bolt) : Type 0 where
    pub entry_put :
        (k v : Bytes) (b : Bucket)
        → get k s.canonical ≡ some v
        → (b' : Bucket) × (put k v b ≡ some b')
    pub index_delete : (b : Bucket) → (b' : Bucket) × (delete key_applied_index b ≡ some b')
    pub revision_put :
        (b : Bucket) → (b' : Bucket) × (put key_revision (u64key (revision bolt s)) b ≡ some b')
    pub schema_put :
        (b : Bucket) → (b' : Bucket) × (put key_schema (u64key (schema_version bolt s)) b ≡ some b')

  -- Every listed path has the value of its entry, every other one that of before.
  put_paths-get :
      (s : Store bolt) (paths : List Bytes) (entries : Dict Bytes) (b : Bucket)
      → Writable s
      → ((k : Bytes) → lookup k entries ≡ get k s.canonical)
      → ((k : Bytes) → has k paths ≡ true → (v : Bytes) × (lookup k entries ≡ some v))
      → (b' : Bucket) × (put_paths bolt out paths entries b ≡ some b')
        × ((k : Bytes) → get k b' ≡ (if has k paths then lookup k entries else get k b))
  unfolding put_paths has
  put_paths-get s [] entries b w view known = (b, refl, λ k. refl)
  put_paths-get s (p ∷ paths) entries b w view known =
      let (v, e) = known p (rw (bytes_eq_refl p) refl) in
      let (b1, f) = w.entry_put p v b (sym (view p) ∙ e) in
      let (b2, g, h) =
        put_paths-get s paths entries b1 w view (λ k t. known k (ground (arith, t))) in
      (b2, rw (e, put_paths) (rw f g), λ k. pointwise k b1 b2 v e (h k) (bolt.get-put p v b b1 f k))
    where
      pointwise :
          (k : Bytes) (b1 b2 : Bucket) (v : Bytes)
          → lookup p entries ≡ some v
          → get k b2 ≡ (if has k paths then lookup k entries else get k b1)
          → get k b1 ≡ (if bytes_eq p k then some v else get k b)
          → get k b2 ≡ (if bytes_eq k p || has k paths then lookup k entries else get k b)
      pointwise k b1 b2 v e h i = elim (Bool-cases (bytes_eq k p)) [
        | inl same ↦
            let equal = (bytes_eq_iff k p).0 same in
            let here : lookup k entries ≡ some v = ap (λ (x : Bytes). lookup x entries) equal ∙ e in
            ground (arith, bytes_eq_iff p k)
        | inr other ↦ ground (arith, bytes_eq_iff p k, bytes_eq_iff k p)
      ]

  -- What a restored store has of the one that the snapshot was taken of, and of the one before.
  pub record Restored (s t t' : Store bolt) : Type 0 where
    pub same_state : (k : Bytes) → get k t'.canonical ≡ get k s.canonical
    pub same_revision : revision bolt t' ≡ revision bolt s
    pub same_schema : schema_version bolt t' ≡ schema_version bolt s
    pub no_index : applied_index bolt t' ≡ 0
    pub same_logs : t'.logs ≡ t.logs
    pub same_stable : t'.stable ≡ t.stable

  -- The number of a key that was deleted.
  meta_u64-deleted :
      (key : Bytes) (m m' : Bucket) → delete key m ≡ some m' → meta_u64 bolt key m' ≡ 0
  unfolding meta_u64 decode_u64
  meta_u64-deleted key m m' h =
      let gone : get key m' ≡ none = bolt.get-delete key m m' h key ∙ rw (bytes_eq_refl key) refl in
      rw gone refl

  -- The paths of the snapshot, put into an empty bucket.
  entries_restored :
      (s : Store bolt)
      → Writable s
      → (c : Bucket) × (put_paths bolt out
            (sorted_paths out (canonical_entries bolt s))
            (canonical_entries bolt s)
            empty
          ≡ some c)
        × ((k : Bytes) → get k c ≡ get k s.canonical)
  unfolding canonical_entries sorted_paths
  entries_restored s w =
      let entries = bolt.entries s.canonical in
      let keys = map key_of entries in
      let same = has-sorted out.sorter in
      let view = λ (k : Bytes). bolt.lookup-entries k s.canonical in
      let (c, e, at_key) =
        put_paths-get s (sorted_paths out entries) entries empty w view
          (λ k t. has-keys-some k entries (sym (same k keys) ∙ t)) in
      (c, e, λ k. at_key k ∙ rw (same k keys) (found k entries (view k)))
    where
      found :
          (k : Bytes) (entries : Dict Bytes)
          → lookup k entries ≡ get k s.canonical
          → (if has k (map key_of entries) then lookup k entries else get k empty)
            ≡ get k s.canonical
      found k entries h = elim (Bool-cases (has k (map key_of entries))) [
        | inl e ↦ rw e h
        | inr e ↦ rw e (bolt.get-empty k ∙ sym (has-keys-none k entries e) ∙ h)
      ]

  restore-entries :
      (s t : Store bolt)
      → Writable s
      → all_accepted (map key_of (canonical_entries bolt s)) ≡ true
      → revision bolt s < 256 ^ 8
      → schema_version bolt s < 256 ^ 8
      → (t' : Store bolt) × (restore_entries bolt out t (snapshot_of bolt out s) ≡ ok t')
        × Restored s t t'
  unfolding restore_entries snapshot_of envelope_of revision schema_version applied_index
      canonical_entries sorted_paths
  restore-entries s t w accepted small_revision small_schema =
      let (c, e1, same) = entries_restored s w in
      let (m1, e2) = w.index_delete t.meta in
      let (m2, e3) = w.revision_put m1 in
      let (m3, e4) = w.schema_put m2 in
      let schema = u64key (schema_version bolt s) in
      let rev = u64key (revision bolt s) in
      (
        record t { canonical = c; meta = m3 },
        rw (accepted, e1) (rw (e2, e3) (rw e4 refl)),
        record {
          same_state = same;
          same_revision =
              meta_u64-other bolt key_schema key_revision schema m2 m3 e4 (unfold bytes_eq in refl)
              ∙ meta_u64-put bolt key_revision (revision bolt s) m1 m2 e3 small_revision;
          same_schema = meta_u64-put bolt key_schema (schema_version bolt s) m2 m3 e4 small_schema;
          no_index =
              meta_u64-other bolt key_schema key_applied_index schema m2 m3 e4
                (unfold bytes_eq in refl)
              ∙ meta_u64-other bolt key_revision key_applied_index rev m1 m2 e3
                  (unfold bytes_eq in refl)
              ∙ meta_u64-deleted key_applied_index t.meta m1 e2;
          same_logs = refl;
          same_stable = refl;
        },
      )

  read-export :
      (s : Store bolt)
      → schema_version bolt s ≤ control_schema_version
      → length (out.encode_snapshot (snapshot_of bolt out s)) ≤ snapshot_limit
      → out.decode_snapshot (out.encode_snapshot (snapshot_of bolt out s))
        ≡ some (snapshot_of bolt out s)
      → read_snapshot out (out.encode_snapshot (snapshot_of bolt out s))
        ≡ ok (snapshot_of bolt out s)
  unfolding read_snapshot
  read-export s schema short json =
      let whole = take_short snapshot_limit (out.encode_snapshot (snapshot_of bolt out s)) short in
      let fits : ltb control_schema_version (schema_version bolt s) ≡ false = ground arith in
      let sum =
        snapshot_checksum out (schema_version bolt s) (revision bolt s)
          (canonical_entries bolt s) in
      rw (whole, json) (unfold snapshot_of envelope_of in rw (fits, bytes_eq_refl sum) refl)

  -- Where the revision of a store is a uint64 not below its floor, the schema is not above the present
  -- one, every path is accepted, no write to the bucket fails, the encoded snapshot has at most 128 MiB
  -- and JSON reads this snapshot back as it was written, `ExportSnapshot` makes a snapshot whose bytes
  -- the transaction of `Restore` accepts: any store gets the canonical state, the revision and the
  -- schema of the exported one, and no index of applied entries, and keeps its log and its stable
  -- values.
  pub restore-export :
      (s t : Store bolt)
      → revision_floor bolt s ≤ revision bolt s
      → revision bolt s < 256 ^ 8
      → schema_version bolt s ≤ control_schema_version
      → all_accepted (map key_of (canonical_entries bolt s)) ≡ true
      → Writable s
      → length (out.encode_snapshot (snapshot_of bolt out s)) ≤ snapshot_limit
      → out.decode_snapshot (out.encode_snapshot (snapshot_of bolt out s))
        ≡ some (snapshot_of bolt out s)
      → (raw : Bytes) × (t' : Store bolt) × (export_snapshot bolt out s ≡ ok raw)
        × (restore_store bolt out t raw ≡ ok t')
        × Restored s t t'
  unfolding export_snapshot check_snapshot_revision_floor restore_store
  restore-export s t floor small schema accepted w short json =
      let above : ltb (revision bolt s) (revision_floor bolt s) ≡ false = ground arith in
      let (t', e, restored) = restore-entries s t w accepted small (omega (arith, schema)) in
      (
        out.encode_snapshot (snapshot_of bolt out s),
        t',
        rw above refl,
        rw (read-export s schema short json) e,
        restored,
      )
