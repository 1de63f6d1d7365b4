-- ===== src/Controlplane/Machine/Branches.antt =====
-- What the transaction of `Apply` in internal/controlplane/fsm.go leaves behind, on every branch.
use bpc.Base.{
  ℕ, ◌^◌, ◌≤◌, ◌<◌, not, ◌&&◌, List, leb, ◌==◌, All, Bytes, ◌⊎◌, none, Result, ok, err,
  Option-cases, Bool-cases, inl, inr, ◌≡◌, refl, ◌∙◌, arith,
}
use bpc.Controlplane.Bolt.{Bolt}
use bpc.Controlplane.Store.{Store, revision, schema_version, applied_index}
use bpc.Controlplane.Command.{Operation, Mutation, control_schema_version}
use bpc.Controlplane.Machine.{
  Outside, Conflict, ApplyError, Outcome, replayed, conflicted, committed, conflict_of, transact,
}
use bpc.Controlplane.Machine.Conditions.{Meets, Refused, conflict_of-none, conflict_of-some}
use bpc.Controlplane.Machine.Writes.{NextRevision, Fails, get-put_operations}
use bpc.Controlplane.Ownership.Owned.{Owned}
use bpc.Controlplane.Ownership.Accepted.{accepted-Owned}
use bpc.Controlplane.Ownership.Records.{effects_of}
use bpc.Controlplane.Machine.Metadata.{
  watermark, mark_applied-Marked, mark_applied_total, WriteResult, write_failed, write_done,
  write_command-WriteResult,
}

module _ (bolt : Bolt) (out : Outside) where
  -- The state of before but for the metadata: the log, the stable values and the canonical state.
  pub record Keeps (s s' : Store bolt) : Type 0 where
    pub logs : s'.logs ≡ s.logs
    pub stable : s'.stable ≡ s.stable
    pub canonical : s'.canonical ≡ s.canonical

  -- An entry without an index, or above the index of applied entries.
  pub IsNew : ℕ → Store bolt → Type 0
  IsNew index s = (index ≡ 0) ⊎ (applied_index bolt s < index)

  -- A transaction that fails leaves nothing behind; it has no state.
  pub data Transacted (index : ℕ) (c : Mutation) (ops : List Operation) (s : Store bolt)
      : Result ApplyError (Store bolt × Outcome) → Type 0 where
    is_replay :
        0 < index
        → index ≤ applied_index bolt s
        → Transacted index c ops s (ok (s, replayed (revision bolt s)))
    is_conflict :
        (s' : Store bolt) (why : Conflict)
        → IsNew index s
        → Refused bolt out s.canonical ops why
        → Keeps s s'
        → revision bolt s' ≡ revision bolt s
        → applied_index bolt s' ≡ watermark bolt out index s
        → Transacted index c ops s (ok (s', conflicted (revision bolt s) why))
    is_commit :
        (s' : Store bolt) (next : ℕ)
        → IsNew index s
        → All (Meets bolt out s.canonical) ops
        → NextRevision c (revision bolt s) next
        → ((k : Bytes) → bolt.get k s'.canonical ≡ effects_of k ops (bolt.get k s.canonical))
        → Owned out.json (λ k. bolt.get k s'.canonical)
        → s'.logs ≡ s.logs
        → s'.stable ≡ s.stable
        → revision bolt s' ≡ next
        → schema_version bolt s' ≡ control_schema_version
        → applied_index bolt s' ≡ watermark bolt out index s
        → Transacted index c ops s (ok (s', committed next))
    is_failure :
        (e : ApplyError)
        → IsNew index s
        → Fails c ops (revision bolt s) e
        → Transacted index c ops s (err e)

  commit_from :
      (index : ℕ) (c : Mutation) (ops : List Operation) (s : Store bolt) (m : bolt.Bucket)
      (r : Result ApplyError (Store bolt × Outcome))
      → WriteResult bolt out c ops (revision bolt s) (record s { meta = m }) r
      → IsNew index s
      → conflict_of bolt out s.canonical ops ≡ none
      → applied_index bolt (record s { meta = m }) ≡ watermark bolt out index s
      → Transacted index c ops s r
  commit_from index c ops s m r (write_failed e why) new free idx = is_failure e new why
  commit_from index c ops s m r (write_done s' next w) new free idx =
      let (met, passed) = conflict_of-none bolt out s.canonical ops free in
      let values =
        λ (k : Bytes). get-put_operations bolt out k ops s.canonical s'.canonical w.applied in
      is_commit s' next new met w.stepped values
        (accepted-Owned bolt out.json out.sorter s.canonical ops (λ k. bolt.get k s'.canonical)
          values passed)
        w.logs w.stable w.new_revision w.new_schema (w.same_index ∙ idx)

  -- Where the index, the revision and the minimum of the command are uint64s, the transaction of
  -- `Apply` has one of these ends. An entry whose index is reached is a replay and changes nothing.
  -- For any other: a conflict is the first operation whose precondition the state does not meet, or
  -- the check of the owners, and leaves the canonical state, the revision, the log and the stable
  -- values as they were; only the index of applied entries moves. A commit has every precondition
  -- met; every path has what its last operation makes of it, each route has its owner, the revision
  -- is one more, or raised to the minimum of a reconciliation, the schema is the present one, the
  -- index is that of the entry, and the log and the stable values stay. A failure comes only of a
  -- revision that cannot be counted up, or of a put that the database does not take; it has no state,
  -- so the old one stays.
  pub transact-Transacted :
      (index : ℕ) (c : Mutation) (ops : List Operation) (s : Store bolt)
      → index < 256 ^ 8
      → revision bolt s < 256 ^ 8
      → c.revision_minimum < 256 ^ 8
      → Transacted index c ops s (transact bolt out index c ops s)
  unfolding transact
  transact-Transacted index c ops s fits small least =
      elim (Bool-cases (not (index == 0) && leb index (applied_index bolt s))) [
        | inl e ↦ rw (e, transact) (is_replay (ground arith) (ground arith))
        | inr e ↦
            let (m, f) = mark_applied_total bolt out index s in
            let new : IsNew index s =
              unfold IsNew in
              elim (Bool-cases (index == 0)) [
                | inl z ↦ inl (ground arith)
                | inr z ↦ inr (ground arith)
              ] in
            let marked = mark_applied-Marked bolt out index s m fits f in
            let s1 : Store bolt = record s { meta = m } in
            let rev : revision bolt s1 ≡ revision bolt s =
              unfold revision in marked.same_revision in
            let idx : applied_index bolt s1 ≡ watermark bolt out index s =
              unfold applied_index in marked.marked in
            elim (Option-cases (conflict_of bolt out s.canonical ops)) [
              | inr (why, g) ↦
                  rw (e, f, transact)
                    (rw (g, rev)
                      (is_conflict s1 why new (conflict_of-some bolt out s.canonical ops why g)
                        record { logs = refl; stable = refl; canonical = refl } rev idx))
              | inl g ↦
                  rw (e, f, transact)
                    (rw g (
                      commit_from index c ops s m _
                        (write_command-WriteResult bolt out c ops (revision bolt s) s1 small least)
                        new g idx))
            ]
      ]
