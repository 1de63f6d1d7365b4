-- ===== src/Controlplane/Machine/Snapshots.antt =====
-- internal/controlplane/fsm.go: snapshots of the canonical state, `Restore`, and the projection of
-- the whole state into files.
pub mod Keys
pub mod RoundTrip
pub mod Floor
mod Tests
use bpc.Base.{
  ℕ, Bool, true, false, not, ◌&&◌, ◌||◌, List, [], ◌∷◌, ◌++◌, ltb, ◌==◌, if◌then◌else◌, map, take,
  has, Bytes, bytes_eq, bytes_lt, codes, Option, none, some, Result, ok, err, ◌>>=◌, ◌>>◌, fail_if,
  require,
}
use bpc.Base.Decimal.{print_u64}
use bpc.Base.Int.{ℤ, pos}
use bpc.Base.Dict.{Dict, lookup}
use bpc.Base.Hex.{hex_encode}
use bpc.Controlplane.RaftLog.{u64key}
use bpc.Controlplane.Bolt.{Bolt}
use bpc.Controlplane.Store.{
  Store, or_empty, key_revision, key_schema, key_applied_index, revision, revision_floor,
  schema_version, canonical_entries,
}
use bpc.Controlplane.Command.{
  Operation, Mutation, put_op, control_schema_version, normalize_replicated_path,
}
use bpc.Controlplane.Machine.{Disk, Snapshot, Outside, Machine, target_of}

pub data SnapshotError : Type 0 where
  below_floor bad_encoding incompatible_schema checksum_mismatch path_refused write_failed :
      SnapshotError
  projection_failed : SnapshotError

abbrev pub snapshot_limit : ℕ
snapshot_limit = 134217728

abbrev pub key_of : Bytes × Bytes → Bytes
key_of e = e.0

module _ (out : Outside) where
  pub sorted_paths : Dict Bytes → List Bytes
  sorted_paths entries = out.sorter.sort bytes_lt (map key_of entries)

  checksum_lines : List Bytes → Dict Bytes → Bytes
  checksum_lines [] entries = []
  checksum_lines (path ∷ paths) entries =
      path
      ++ (0 ∷ hex_encode (out.sha256 (or_empty (lookup path entries))))
      ++ (10 ∷ checksum_lines paths entries)

  pub snapshot_checksum : ℕ → ℕ → Dict Bytes → Bytes
  unfolding checksum_lines
  snapshot_checksum schema rev entries = hex_encode (
      out.sha256 (
        codes "schema="
        ++ print_u64 schema
        ++ (codes "\nrevision="
            ++ print_u64 rev
            ++ (10 ∷ checksum_lines (sorted_paths entries) entries))))

  pub envelope_of : ℕ → ℕ → Dict Bytes → Snapshot
  envelope_of schema rev entries = record {
    version = 1;
    schema_version = schema;
    revision = rev;
    entries = entries;
    checksum = snapshot_checksum schema rev entries;
  }

  -- The checks of `Restore` before the transaction.
  pub read_snapshot : Bytes → Result SnapshotError Snapshot
  read_snapshot raw = do
    envelope ← require (out.decode_snapshot (take snapshot_limit raw)) bad_encoding
    fail_if (not (envelope.version == 1) || ltb control_schema_version envelope.schema_version)
        incompatible_schema
    let expected = snapshot_checksum envelope.schema_version envelope.revision envelope.entries
    fail_if (not (bytes_eq expected envelope.checksum)) checksum_mismatch
    ok envelope

  bootstrap_operations : List Bytes → Dict Bytes → List Operation
  bootstrap_operations [] entries = []
  bootstrap_operations (path ∷ paths) entries =
      record {
        op = put_op;
        path = path;
        contents = or_empty (lookup path entries);
        if_absent = true;
        require_present = false;
        expected_sha256 = [];
      }
      ∷ bootstrap_operations paths entries

  -- `entries` is what `ScanReplicatedProjection` reads.
  pub bootstrap_mutation : Dict Bytes → Bytes → ℤ → Mutation
  unfolding bootstrap_operations
  bootstrap_mutation entries id issued_at = record {
    version = pos 1;
    id = id;
    kind = codes "BootstrapCanonicalState";
    issued_at = issued_at;
    operations = bootstrap_operations (sorted_paths entries) entries;
    revision_minimum = 0;
  }

is_accepted : Bytes → Bool
is_accepted path = elim (normalize_replicated_path path) [ ok p ↦ true | err e ↦ false ]

pub all_accepted : List Bytes → Bool
unfolding is_accepted
all_accepted [] = true
all_accepted (path ∷ paths) = is_accepted path && all_accepted paths

module _ (bolt : Bolt) (out : Outside) where
  open bolt use {Bucket, get, put, delete, empty}

  pub snapshot_of : Store bolt → Snapshot
  snapshot_of s =
      envelope_of out (schema_version bolt s) (revision bolt s) (canonical_entries bolt s)

  check_snapshot_revision_floor : Store bolt → ℕ → Result SnapshotError (Unit {0})
  check_snapshot_revision_floor s rev = fail_if (ltb rev (revision_floor bolt s)) below_floor

  pub export_snapshot : Store bolt → Result SnapshotError Bytes
  unfolding check_snapshot_revision_floor
  export_snapshot s = do
    check_snapshot_revision_floor s (revision bolt s)
    ok (out.encode_snapshot (snapshot_of s))

  -- The data of `Snapshot`.
  pub take_snapshot : Store bolt → Result SnapshotError Bytes
  unfolding check_snapshot_revision_floor
  take_snapshot s = do
    check_snapshot_revision_floor s (revision bolt s)
    ok (out.encode_snapshot (snapshot_of s))

  pub put_paths : List Bytes → Dict Bytes → Bucket → Option Bucket
  put_paths [] entries b = some b
  put_paths (path ∷ paths) entries b = elim (put path (or_empty (lookup path entries)) b) [
    | none ↦ none
    | some b' ↦ put_paths paths entries b'
  ]

  -- The transaction of `Restore`, which begins with an empty bucket.
  pub restore_entries : Store bolt → Snapshot → Result SnapshotError (Store bolt)
  restore_entries s envelope = do
    fail_if (not (all_accepted (map key_of envelope.entries))) path_refused
    canonical ←
        require (put_paths (sorted_paths out envelope.entries) envelope.entries empty) write_failed
    m1 ← require (delete key_applied_index s.meta) write_failed
    m2 ← require (put key_revision (u64key envelope.revision) m1) write_failed
    m3 ← require (put key_schema (u64key envelope.schema_version) m2) write_failed
    ok (record s { canonical = canonical; meta = m3 })

  pub restore_store : Store bolt → Bytes → Result SnapshotError (Store bolt)
  restore_store s raw = do envelope ← read_snapshot out raw; restore_entries s envelope

-- `scan` is `ScanReplicatedProjection`: the replicated paths that have a file.
module _ (bolt : Bolt) (out : Outside) (disk : Disk) (root : Bytes)
    (scan : disk.Files → Option (List Bytes)) where
  open disk use {Files, write, remove}

  -- The order of a Go map is open; this is the order of the bucket.
  write_all : Dict Bytes → Files → Files × Bool
  write_all [] files = (files, true)
  write_all ((path, contents) ∷ entries) files =
      let (files', done) = write (target_of bolt out disk root path) contents files in
      let rest = write_all entries files' in if done then rest else (files', false)

  remove_absent : List Bytes → List Bytes → Files → Files × Bool
  remove_absent [] present files = (files, true)
  remove_absent (path ∷ paths) present files =
      let (files', done) = remove (target_of bolt out disk root path) files in
      let rest = remove_absent paths present files' in
      let kept = remove_absent paths present files in
      if has path present then kept else if done then rest else (files', false)

  pub reconcile_projection : Machine bolt out disk root → Machine bolt out disk root × Bool
  unfolding write_all remove_absent
  reconcile_projection m =
      let entries = canonical_entries bolt m.store in
      let (files, written) = write_all entries m.files in
      if not written then (record m { files = files }, false) else elim (scan files) [
        | none ↦ (record m { files = files }, false)
        | some existing ↦
            (let (left, removed) = remove_absent existing (map key_of entries) files in
              (record m { files = left }, removed))
      ]

  -- The transaction under the mutex, then the projection, for which the code takes the mutex again:
  -- here no other method runs between the two.
  pub restore :
      Machine bolt out disk root → Bytes → Machine bolt out disk root × Option SnapshotError
  restore m raw = elim (restore_store bolt out m.store raw) [
    | err e ↦ (m, some e)
    | ok s ↦
        (let (m', done) = reconcile_projection (record m { store = s }) in
          (m', if done then none else some projection_failed))
  ]
