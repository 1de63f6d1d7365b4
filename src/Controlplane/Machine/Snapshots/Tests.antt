-- ===== src/Controlplane/Machine/Snapshots/Tests.antt =====
-- The round trip of a snapshot of internal/controlplane/fsm.go at a concrete state.
use mathlib.Core.Path.{subst}
use bpc.Base.{
  ◌^◌, ◌<◌, ◌≡◌, true, false, [], ◌∷◌, map, put_be, be, has_prefix, has, Bytes, bytes_eq,
  bytes_eq_iff, bytes_lt, codes, none, some, ok, Bool-cases, inl, inr, refl, arith, err,
}
use bpc.Base.Dict.{Dict, lookup}
use bpc.Base.Encoding.{trim_space}
use bpc.Base.FilePath.{clean_path, join_slash, clean_parts, split_slash}
use bpc.Base.Hex.{hex_encode}
use bpc.Base.InsertionSort.{insertion_sorter}
use bpc.Controlplane.RaftLog.{decode_u64, u64key}
use bpc.Controlplane.Bolt.Sorted.{
  SortedBucket, sorted_bolt, bad_key, put_sorted, put_sorted_total, delete_sorted_total,
  delete_sorted,
}
use bpc.Controlplane.Store.{
  Store, key_revision, key_schema, key_applied_index, revision, revision_floor, schema_version,
  meta_u64, canonical_entries, prepare_replay, applied_index, well_sized, next_floor, legacy,
}
use bpc.Controlplane.Command.{Mutation, normalize_replicated_path}
use bpc.Controlplane.Machine.{Outside, Snapshot}
use bpc.Controlplane.Machine.Snapshots.{
  snapshot_of, envelope_of, snapshot_checksum, export_snapshot, restore_store, all_accepted,
  is_accepted, key_of, restore_entries, put_paths, sorted_paths, below_floor,
}
use bpc.Controlplane.Machine.Snapshots.RoundTrip.{Writable, Restored, restore-export}
use bpc.Controlplane.Machine.Snapshots.Floor.{prepared_restored-export}

abbrev config_path : Bytes
config_path = codes "control/config.json"

abbrev contents : Dict Bytes
contents = (config_path, 1 ∷ 2 ∷ []) ∷ []

abbrev canonical : SortedBucket
canonical = (contents, (tt, tt))

-- Revision 3 of schema 1.
abbrev meta : SortedBucket
meta = (
  (key_revision, put_be 8 3) ∷ (key_schema, put_be 8 1) ∷ [],
  ((unfold bytes_lt in refl, tt), (tt, tt)),
)

abbrev nothing : SortedBucket
nothing = ([], tt)

abbrev source : Store sorted_bolt
source = record { logs = nothing; stable = nothing; canonical = canonical; meta = meta }

abbrev target : Store sorted_bolt
target = record { logs = nothing; stable = nothing; canonical = nothing; meta = nothing }

no_mutation : (raw : Bytes) (c : Mutation) → none ≡ some c → c.revision_minimum < 256 ^ 8
no_mutation raw c h = absurd (ground arith)

abbrev outside : Outside
outside = record {
  json = record { decode_route = λ raw. none; decode_node = λ raw. none };
  decode_mutation = λ raw. none;
  minimum_lt = no_mutation;
  encode_snapshot = λ s. 1 ∷ [];
  decode_snapshot = λ raw.
      some (record {
        version = 1;
        schema_version = 1;
        revision = 3;
        entries = contents;
        checksum = [];
      });
  sha256 = λ raw. [];
  sorter = insertion_sorter;
}

source_revision : revision sorted_bolt source ≡ 3
unfolding revision meta_u64 decode_u64 lookup bytes_eq put_be be
source_revision = refl

source_schema : schema_version sorted_bolt source ≡ 1
unfolding schema_version meta_u64 decode_u64 lookup bytes_eq put_be be
source_schema = refl

source_floor : revision_floor sorted_bolt source ≡ 0
unfolding revision_floor meta_u64 decode_u64 lookup bytes_eq
source_floor = refl

-- A key of one entry is its path, which can be put.
entry_put :
    (k v : Bytes) (b : SortedBucket)
    → lookup k contents ≡ some v
    → (b' : SortedBucket) × (put_sorted k v b ≡ some b')
unfolding lookup
entry_put k v b h = elim (Bool-cases (bytes_eq config_path k)) [
  | inl e ↦
      let same = (bytes_eq_iff config_path k).0 e in
      put_sorted_total k v b (subst (λ (x : Bytes). bad_key x ≡ false) same refl)
  | inr e ↦ absurd (ground arith)
]

source-Writable : Writable sorted_bolt outside source
source-Writable = record {
  entry_put = entry_put;
  index_delete = λ b. delete_sorted_total key_applied_index b;
  revision_put = λ b. put_sorted_total key_revision _ b refl;
  schema_put = λ b. put_sorted_total key_schema _ b refl;
}

source_accepted : all_accepted (map key_of (canonical_entries sorted_bolt source)) ≡ true
unfolding all_accepted is_accepted canonical_entries normalize_replicated_path bytes_eq has_prefix
    clean_path trim_space join_slash clean_parts split_slash has
source_accepted = refl

source_decoded :
    outside.decode_snapshot (outside.encode_snapshot (snapshot_of sorted_bolt outside source))
    ≡ some (snapshot_of sorted_bolt outside source)
unfolding snapshot_of envelope_of snapshot_checksum canonical_entries hex_encode
source_decoded = rw (source_revision, source_schema) refl

restore-export_example :
    (raw : Bytes) × (t' : Store sorted_bolt) × (export_snapshot sorted_bolt outside source ≡ ok raw)
    × (restore_store sorted_bolt outside target raw ≡ ok t')
    × Restored sorted_bolt outside source target t'
restore-export_example =
    restore-export sorted_bolt outside source target (omega (arith, source_floor, source_revision))
      (omega (arith, source_revision)) (omega (arith, source_schema)) source_accepted
      source-Writable (omega arith) source_decoded

-- Revision 1 of the empty state.
abbrev older : Snapshot
older = record { version = 1; schema_version = 1; revision = 1; entries = []; checksum = [] }

abbrev prepared : Store sorted_bolt
prepared = (prepare_replay sorted_bolt source true).0

abbrev restored : Store sorted_bolt
restored = elim (restore_entries sorted_bolt outside prepared older) [ ok s ↦ s | err e ↦ prepared ]

prepares : prepare_replay sorted_bolt source true ≡ (prepared, ok 3)
unfolding prepare_replay well_sized next_floor legacy put_sorted revision revision_floor
    applied_index meta_u64 decode_u64 u64key lookup bytes_eq bytes_lt put_be be
prepares = refl

restores : restore_entries sorted_bolt outside prepared older ≡ ok restored
unfolding restore_entries all_accepted put_paths sorted_paths prepare_replay well_sized next_floor
    legacy put_sorted delete_sorted revision revision_floor meta_u64 decode_u64 u64key lookup
    bytes_eq bytes_lt put_be be
restores = refl

prepared_restored-export_example : export_snapshot sorted_bolt outside restored ≡ err below_floor
prepared_restored-export_example =
    prepared_restored-export sorted_bolt outside source prepared restored true 3 older
      (omega (arith, source_revision)) (omega (arith, source_floor))
      (omega (arith, source_revision)) prepares restores
