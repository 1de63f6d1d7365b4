-- ===== src/Controlplane/Store.antt =====
-- internal/controlplane/store.go: the Raft log, the stable values, the canonical state and its
-- metadata, in four buckets. `db.Update` is one step: where its function fails, nothing is changed.
pub mod Meta
pub mod Logs
pub mod Order
pub mod Ranges
pub mod Floor
mod Tests
use bpc.Base.{
  ℕ, ◌%◌, ◌^◌, Bool, true, false, not, ◌&&◌, ◌||◌, List, [], ◌∷◌, ltb, leb, ◌==◌, if◌then◌else◌,
  length, Bytes, bytes_lt, codes, Option, none, some, Result, ok, err, ◌>>=◌, ◌>>◌, fail_if,
  map_err,
}
use bpc.Base.Dict.{Dict}
use bpc.Controlplane.RaftLog.{Log, LogError, u64key, decode_u64, encode_raft_log, decode_raft_log}
use bpc.Controlplane.Bolt.{Bolt}

abbrev pub key_revision : Bytes
key_revision = codes "revision"

abbrev pub key_schema : Bytes
key_schema = codes "schema_version"

abbrev pub key_applied_index : Bytes
key_applied_index = codes "applied_index"

abbrev pub key_revision_floor : Bytes
key_revision_floor = codes "revision_floor"

pub data StoreError : Type 0 where
  bolt_failed log_not_found legacy_replay_unsafe invalid_metadata bad_uint64_length : StoreError
  bad_log : LogError → StoreError

-- `if err := …; err != nil { return err }` of a bbolt call.
abbrev pub or_failed {ℓ} : {A : Type ℓ} → Option A → Result StoreError A
or_failed none = err bolt_failed
or_failed (some a) = ok a

-- The entries of a cursor from a key on.
unfoldable pub seek : Bytes → Dict Bytes → Dict Bytes
seek k [] = []
seek k ((j, v) ∷ m) = if bytes_lt j k then seek k m else (j, v) ∷ m

-- A value that is not there reads as empty.
abbrev pub or_empty : Option Bytes → Bytes
or_empty none = []
or_empty (some v) = v

module _ (bolt : Bolt) where
  open bolt use {Bucket, get, put, delete, entries}

  pub record Store : Type 0 where
    pub logs : Bucket
    pub stable : Bucket
    pub canonical : Bucket
    pub meta : Bucket

  unfoldable pub meta_u64 : Bytes → Bucket → ℕ
  meta_u64 key m = decode_u64 (or_empty (get key m))

  index_of_first : Dict Bytes → ℕ
  index_of_first [] = 0
  index_of_first ((k, v) ∷ m) = decode_u64 k

  index_of_last : Dict Bytes → ℕ
  index_of_last [] = 0
  index_of_last ((k, v) ∷ []) = decode_u64 k
  index_of_last (e ∷ f ∷ m) = index_of_last (f ∷ m)

  pub first_index : Store → ℕ
  unfolding index_of_first
  first_index s = index_of_first (entries s.logs)

  pub last_index : Store → ℕ
  unfolding index_of_last
  last_index s = index_of_last (entries s.logs)

  pub get_log : Store → ℕ → Log → Result StoreError Log
  get_log s index out = elim (get (u64key index) s.logs) [
    | none ↦ err log_not_found
    | some raw ↦ map_err bad_log (decode_raft_log raw out)
  ]

  pub put_logs : List Log → Bucket → Option Bucket
  put_logs [] b = some b
  put_logs (log ∷ logs) b = elim (put (u64key log.index) (encode_raft_log log) b) [
    | none ↦ none
    | some b' ↦ put_logs logs b'
  ]

  pub store_logs : Store → List Log → Store × Result StoreError (Unit {0})
  store_logs s logs = elim (put_logs logs s.logs) [
    | none ↦ (s, err bolt_failed)
    | some b ↦ (record s { logs = b }, ok tt)
  ]

  pub store_log : Store → Log → Store × Result StoreError (Unit {0})
  store_log s log = store_logs s (log ∷ [])

  -- The loop of `DeleteRange` over the entries from `min` on.
  pub delete_through : ℕ → Dict Bytes → Bucket → Option Bucket
  delete_through max [] b = some b
  delete_through max ((k, v) ∷ m) b =
      if ltb max (decode_u64 k)
      then some b
      else elim (delete k b) [ none ↦ none | some b' ↦ delete_through max m b' ]

  pub delete_range : Store → ℕ → ℕ → Store × Result StoreError (Unit {0})
  delete_range s min max =
      if ltb max min
      then (s, ok tt)
      else elim (delete_through max (seek (u64key min) (entries s.logs)) s.logs) [
        | none ↦ (s, err bolt_failed)
        | some b ↦ (record s { logs = b }, ok tt)
      ]

  pub set_stable : Store → Bytes → Bytes → Store × Result StoreError (Unit {0})
  set_stable s key value = elim (put key value s.stable) [
    | none ↦ (s, err bolt_failed)
    | some b ↦ (record s { stable = b }, ok tt)
  ]

  pub get_stable : Store → Bytes → Bytes
  get_stable s key = or_empty (get key s.stable)

  pub set_uint64 : Store → Bytes → ℕ → Store × Result StoreError (Unit {0})
  set_uint64 s key value = set_stable s key (u64key value)

  pub get_uint64 : Store → Bytes → Result StoreError ℕ
  get_uint64 s key =
      let value = get_stable s key in
      if length value == 0
      then ok 0
      else if not (length value == 8)
      then err bad_uint64_length
      else ok (decode_u64 value)

  pub canonical_get : Store → Bytes → Option Bytes
  canonical_get s path = get path s.canonical

  unfoldable pub canonical_entries : Store → Dict Bytes
  canonical_entries s = entries s.canonical

  unfoldable pub revision : Store → ℕ
  revision s = meta_u64 key_revision s.meta

  unfoldable pub revision_floor : Store → ℕ
  revision_floor s = meta_u64 key_revision_floor s.meta

  unfoldable pub schema_version : Store → ℕ
  schema_version s = meta_u64 key_schema s.meta

  unfoldable pub applied_index : Store → ℕ
  applied_index s = meta_u64 key_applied_index s.meta

  -- A value of the metadata that is there has 8 bytes.
  unfoldable pub well_sized : Bytes → Bucket → Bool
  well_sized key m = elim (get key m) [ none ↦ true | some raw ↦ length raw == 8 ]

  is_empty : Dict Bytes → Bool
  is_empty [] = true
  is_empty (e ∷ m) = false

  -- The floor that `prepareReplay` records.
  unfoldable pub next_floor : Store → ℕ
  next_floor s = if ltb (revision_floor s) (revision s) then revision s else revision_floor s

  -- State of an old format: there is some, but no index says how far the log has been applied.
  unfoldable pub legacy : Store → Bool
  unfolding is_empty
  legacy s = applied_index s == 0 && (not (revision s == 0) || not (is_empty (entries s.canonical)))

  unfoldable pub prepare_replay : Store → Bool → Store × Result StoreError ℕ
  unfolding well_sized
  prepare_replay s has_snapshots =
      if not (well_sized key_revision s.meta)
        || (not (well_sized key_applied_index s.meta) || not (well_sized key_revision_floor s.meta))
      then (s, err invalid_metadata)
      else if legacy s && not has_snapshots
      then (s, err legacy_replay_unsafe)
      else elim (put key_revision_floor (u64key (next_floor s)) s.meta) [
        | none ↦ (s, err bolt_failed)
        | some m ↦ (record s { meta = m }, ok (next_floor s))
      ]
