-- ===== src/Controlplane/Machine.antt =====
-- internal/controlplane/fsm.go: `Apply`, the projection into files, snapshots and `Restore`. A
-- machine is its store and the files below the state root.
pub mod Conditions
pub mod Writes
pub mod Metadata
pub mod Branches
pub mod Replay
pub mod Owners
pub mod Snapshots
mod Tests
use bpc.Base.{
  ℕ, ◌+◌, ◌-◌, ◌/◌, ◌%◌, ◌^◌, ◌<◌, ◌≡◌, Bool, true, false, not, ◌&&◌, ◌||◌, List, [], ◌∷◌, ◌++◌,
  zero, suc, ltb, leb, ◌==◌, if◌then◌else◌, length, Bytes, bytes_eq, bytes_lt, codes, has_prefix,
  Option, none, some, Result, ok, err, ◌>>=◌, ◌>>◌, fail_if, map_err,
}
use bpc.Base.Dict.{Dict, lookup}
use bpc.Base.FilePath.{slash, clean_path}
use bpc.Base.Hex.{hex_encode, to_lower}
use bpc.Base.Sort.{Sorter}
use bpc.Controlplane.RaftLog.{Log, u64key}
use bpc.Controlplane.Bolt.{Bolt}
use bpc.Controlplane.Store.{
  Store, StoreError, bolt_failed, or_failed, key_revision, key_schema, key_applied_index, revision,
  revision_floor, schema_version, applied_index,
}
use bpc.Controlplane.Command.{
  Operation, Mutation, CommandError, put_op, delete_op, reconcile_kind, control_schema_version,
  check_command, normalize_replicated_path,
}
use bpc.Controlplane.Ownership.{Json, OwnershipError, validate_route_ownership}

-- The files below a root: `atomicProjectionWrite` and `os.Remove`, with whether they succeeded. A
-- file that is not there is removed with success.
pub record Disk : Type 1 where
  pub Files : Type 0
  pub write : Bytes → Bytes → Files → Files × Bool
  pub remove : Bytes → Files → Files × Bool

pub record Snapshot : Type 0 where
  pub version : ℕ
  pub schema_version : ℕ
  pub revision : ℕ
  pub entries : Dict Bytes
  pub checksum : Bytes

-- What comes from elsewhere: JSON, SHA-256 and sorting.
pub record Outside : Type 1 where
  pub json : Json
  pub decode_mutation : Bytes → Option Mutation
  -- The field is a uint64.
  pub minimum_lt :
      (raw : Bytes) (c : Mutation) → decode_mutation raw ≡ some c → c.revision_minimum < 256 ^ 8
  pub encode_snapshot : Snapshot → Bytes
  pub decode_snapshot : Bytes → Option Snapshot
  pub sha256 : Bytes → Bytes
  pub sorter : Sorter

pub data Conflict : Type 0 where
  already_exists does_not_exist precondition_failed : Bytes → Conflict
  ownership : OwnershipError → Conflict

pub data ApplyError : Type 0 where
  rejected : CommandError → ApplyError
  store_failed : ApplyError
  revision_exhausted : ApplyError
  conflicting : Conflict → ApplyError
  projection_failed : ApplyError

-- `CommitIndex` is set by the caller.
pub record MutationResult : Type 0 where
  pub is_ok : Bool
  pub revision : ℕ
  pub error : Option ApplyError
  pub conflict : Bool

-- What the transaction of `Apply` came to.
pub data Outcome : Type 0 where
  replayed : ℕ → Outcome
  conflicted : ℕ → Conflict → Outcome
  committed : ℕ → Outcome

pub max_revision : ℕ
max_revision = 2 ^ 64 - 1

pub next_revision : Mutation → ℕ → Option ℕ
unfolding max_revision
next_revision c current =
    if bytes_eq c.kind reconcile_kind
    then some (if ltb current c.revision_minimum then c.revision_minimum else current)
    else if current == max_revision
    then none
    else some (current + 1)

module _ (bolt : Bolt) (out : Outside) where
  open bolt use {Bucket, get, put, delete, entries, empty}

  -- The preconditions of one operation, against the state before the command.
  pub precondition : Bucket → Operation → Option Conflict
  precondition canonical o = elim (get o.path canonical) [
    | none ↦
        if o.require_present
        then some (does_not_exist o.path)
        else if not (length o.expected_sha256 == 0)
        then some (precondition_failed o.path)
        else none
    | some existing ↦
        if o.if_absent
        then some (already_exists o.path)
        else if not (length o.expected_sha256 == 0)
            && not (bytes_eq (hex_encode (out.sha256 existing)) (to_lower o.expected_sha256))
        then some (precondition_failed o.path)
        else none
  ]

  pub preconditions : Bucket → List Operation → Option Conflict
  preconditions canonical [] = none
  preconditions canonical (o ∷ os) = elim (precondition canonical o) [
    | some c ↦ some c
    | none ↦ preconditions canonical os
  ]

  pub conflict_of : Bucket → List Operation → Option Conflict
  conflict_of canonical ops = elim (preconditions canonical ops) [
    | some c ↦ some c
    | none ↦ elim (validate_route_ownership bolt out.json out.sorter canonical ops) [
      | ok done ↦ none
      | err e ↦ some (ownership e)
    ]
  ]

  pub put_operation : Operation → Bucket → Option Bucket
  put_operation o canonical =
      if bytes_eq o.op put_op
      then put o.path o.contents canonical
      else if bytes_eq o.op delete_op
      then delete o.path canonical
      else some canonical

  pub put_operations : List Operation → Bucket → Option Bucket
  put_operations [] canonical = some canonical
  put_operations (o ∷ os) canonical = elim (put_operation o canonical) [
    | none ↦ none
    | some c ↦ put_operations os c
  ]

  -- The watermark of the entries that have been applied.
  pub mark_applied : ℕ → Bucket → Option Bucket
  mark_applied index meta =
      if index == 0 then some meta else put key_applied_index (u64key index) meta

  abbrev stored {ℓ} : {A : Type ℓ} → Option A → Result ApplyError A
  stored none = err store_failed
  stored (some a) = ok a

  -- The writes of a command without conflicts, into the state with its watermark.
  pub write_command :
      Mutation → List Operation → ℕ → Store bolt → Result ApplyError (Store bolt × Outcome)
  write_command c ops current s = elim (next_revision c current) [
    | none ↦ err revision_exhausted
    | some next ↦ do
      canonical ← stored (put_operations ops s.canonical)
      m1 ← stored (put key_revision (u64key next) s.meta)
      m2 ← stored (put key_schema (u64key control_schema_version) m1)
      ok (record s { canonical = canonical; meta = m2 }, committed next)
  ]

  -- The function of the transaction.
  pub transact :
      ℕ → Mutation → List Operation → Store bolt → Result ApplyError (Store bolt × Outcome)
  transact index c ops s =
      if not (index == 0) && leb index (applied_index bolt s)
      then ok (s, replayed (revision bolt s))
      else elim (mark_applied index s.meta) [
        | none ↦ err store_failed
        | some meta ↦ elim (conflict_of s.canonical ops) [
          | some why ↦
              ok (
                record s { meta = meta },
                conflicted (revision bolt (record s { meta = meta })) why,
              )
          | none ↦ write_command c ops (revision bolt s) (record s { meta = meta })
        ]
      ]

module _ (bolt : Bolt) (out : Outside) (disk : Disk) (root : Bytes) where
  open bolt use {Bucket, get, put, delete, entries, empty}
  open disk use {Files, write, remove}

  pub record Machine : Type 0 where
    pub store : Store bolt
    pub files : Files

  -- `filepath.Join(f.root, path)`
  pub target_of : Bytes → Bytes
  target_of path = clean_path (root ++ (slash ∷ path))

  -- One round of the loop of `projectOperations`.
  pub project_operation : Operation → Files → Files × Bool
  project_operation o files =
      let target = target_of o.path in
      if not (has_prefix (clean_path target ++ (slash ∷ [])) (root ++ (slash ∷ [])))
      then (files, false)
      else if bytes_eq o.op put_op
      then write target o.contents files
      else if bytes_eq o.op delete_op
      then remove target files
      else (files, true)

  -- The first failure ends the loop.
  pub project_operations : List Operation → Files → Files × Bool
  project_operations [] files = (files, true)
  project_operations (o ∷ os) files =
      let (files', done) = project_operation o files in
      let rest = project_operations os files' in if done then rest else (files', false)

  abbrev refuse : Machine → ℕ → ApplyError → Machine × MutationResult
  refuse m rev e = (m, record { is_ok = false; revision = rev; error = some e; conflict = false })

  abbrev accept : Machine → ℕ → Machine × MutationResult
  accept m rev = (m, record { is_ok = true; revision = rev; error = none; conflict = false })

  -- From the outcome of the transaction on.
  pub report : Machine → List Operation → Outcome → Machine × MutationResult
  report m ops (replayed rev) = accept m rev
  report m ops (conflicted rev why) =
      (m, record { is_ok = false; revision = rev; error = some (conflicting why); conflict = true })
  report m ops (committed rev) =
      let (files, done) = project_operations ops m.files in
      if done
      then accept (record m { files = files }) rev
      else refuse (record m { files = files }) rev projection_failed

  -- From the end of the transaction on.
  pub finish :
      Machine → List Operation → Result ApplyError (Store bolt × Outcome) → Machine × MutationResult
  finish m ops (err e) = refuse m 0 e
  finish m ops (ok (s, outcome)) = report (record m { store = s }) ops outcome

  pub apply : Machine → Log → Machine × MutationResult
  apply m log = elim (check_command (out.decode_mutation log.log_data)) [
    | err e ↦ refuse m 0 (rejected e)
    | ok (c, ops) ↦ finish m ops (transact bolt out log.index c ops m.store)
  ]
