-- ===== src/Controlplane/Machine/Replay.antt =====
-- Raft replays the log after a restart: what `Apply` of internal/controlplane/fsm.go makes of it.
use mathlib.Core.Path.{subst}
use bpc.Base.{
  ◌^◌, ◌≤◌, ◌<◌, true, not, ◌&&◌, List, [], ◌∷◌, leb, ◌==◌, Bytes, All, Option, none, some, Result,
  ok, Result-cases, Bool-cases, inl, inr, ◌≡◌, ◌⊎◌, refl, sym, ◌∙◌, arith,
}
use bpc.Controlplane.RaftLog.{Log}
use bpc.Controlplane.Bolt.{Bolt}
use bpc.Controlplane.Store.{Store, revision, applied_index}
use bpc.Controlplane.Command.{Operation, Mutation, check_command, normalize_operations}
use bpc.Controlplane.Machine.{
  Disk, Outside, ApplyError, Outcome, replayed, conflicted, committed, Machine, transact,
  project_operations, report, finish, apply,
}
use bpc.Controlplane.Machine.Branches.{
  Transacted, is_replay, is_conflict, is_commit, is_failure, transact-Transacted,
}
use bpc.Controlplane.Machine.Metadata.{watermark}
use bpc.Controlplane.Machine.Writes.{NextRevision-lt}

pub check_command-source :
    (x : Option Mutation) (c : Mutation) (ops : List Operation)
    → check_command x ≡ ok (c, ops)
    → x ≡ some c
unfolding check_command
check_command-source none c ops h = absurd (ground arith)
check_command-source (some d) c ops h = elim (Result-cases (normalize_operations d.operations)) [
  | inl (os, e) ↦ ground arith
  | inr (x, e) ↦ absurd (ground arith)
]

-- Indexes that fit, start above zero and rise.
abbrev pub Ordered : List Log → Type 0
Ordered [] = Unit
Ordered (l ∷ ls) =
    (0 < l.index) × (l.index < 256 ^ 8) × All (λ k. l.index < k.index) ls × Ordered ls

module _ (bolt : Bolt) (out : Outside) (disk : Disk) (root : Bytes) where
  -- The machine behind a list of entries.
  unfoldable pub apply_all : Machine bolt out disk root → List Log → Machine bolt out disk root
  apply_all m [] = m
  apply_all m (log ∷ logs) = apply_all (apply bolt out disk root m log).0 logs

  -- An entry changes nothing, or the machine has it applied.
  pub Effect : Machine bolt out disk root → Log → Machine bolt out disk root → Type 0
  Effect m log m' =
      (m' ≡ m)
      ⊎ ((applied_index bolt m'.store ≡ watermark bolt out log.index m.store)
          × (revision bolt m'.store < 256 ^ 8))

  pub report-store :
      (m : Machine bolt out disk root) (ops : List Operation) (o : Outcome)
      → (report bolt out disk root m ops o).0.store ≡ m.store
  unfolding report
  report-store m ops (replayed rev) = refl
  report-store m ops (conflicted rev why) = refl
  report-store m ops (committed rev) =
      elim (Bool-cases (project_operations bolt out disk root ops m.files).1) [
        | inl e ↦ rw e refl
        | inr e ↦ rw e refl
      ]

  finish-Effect :
      (m : Machine bolt out disk root) (log : Log) (c : Mutation) (ops : List Operation)
      (r : Result ApplyError (Store bolt × Outcome))
      → revision bolt m.store < 256 ^ 8
      → c.revision_minimum < 256 ^ 8
      → Transacted bolt out log.index c ops m.store r
      → Effect m log (finish bolt out disk root m ops r).0
  unfolding Effect finish
  finish-Effect m log c ops r small least (is_failure e new why) = inl refl
  finish-Effect m log c ops r small least (is_replay pos near) = inl (unfold report in refl)
  finish-Effect m log c ops r small least (is_conflict s why new g keeps rev idx) =
      inr (unfold report in (idx, rw rev small))
  finish-Effect m log c ops r small least
        (is_commit s next new met step puts routes logs stable rev schema idx) =
      let same = report-store (record m { store = s }) ops (committed next) in
      inr (
        rw same idx,
        rw (same, rev) (NextRevision-lt c (revision bolt m.store) next small least step),
      )

  pub apply-Effect :
      (m : Machine bolt out disk root) (log : Log)
      → log.index < 256 ^ 8
      → revision bolt m.store < 256 ^ 8
      → Effect m log (apply bolt out disk root m log).0
  unfolding apply Effect
  apply-Effect m log fits small =
      elim (Result-cases (check_command (out.decode_mutation log.log_data))) [
        | inr (e, h) ↦ rw (h, apply) (inl refl)
        | inl ((c, ops), h) ↦
            let source = check_command-source (out.decode_mutation log.log_data) c ops h in
            let least = out.minimum_lt log.log_data c source in
            rw (h, apply)
              (finish-Effect m log c ops (transact bolt out log.index c ops m.store) small least
                (transact-Transacted bolt out log.index c ops m.store fits small least))
      ]

  -- An entry that the index of applied entries has reached.
  apply_replayed :
      (m : Machine bolt out disk root) (log : Log)
      → 0 < log.index
      → log.index ≤ applied_index bolt m.store
      → (apply bolt out disk root m log).0 ≡ m
  unfolding apply finish report transact
  apply_replayed m log pos near =
      elim (Result-cases (check_command (out.decode_mutation log.log_data))) [
        | inr (e, h) ↦ rw (h, apply) refl
        | inl ((c, ops), h) ↦
            let again : (not (log.index == 0) && leb log.index (applied_index bolt m.store))
                ≡ true =
              ground arith in
            rw (h, apply) (rw (again, transact) refl)
      ]

  -- To apply the entry again changes nothing.
  Settled : Machine bolt out disk root → Log → Type 0
  Settled m l = (apply bolt out disk root m l).0 ≡ m

  -- Why an entry stays settled: the index has reached it, or no later entry has changed anything.
  Reached : Machine bolt out disk root → Log → Type 0
  Reached m l = (l.index ≤ applied_index bolt m.store) ⊎ Settled m l

  pub Effect-small :
      (m : Machine bolt out disk root) (l : Log) (m' : Machine bolt out disk root)
      → Effect m l m'
      → revision bolt m.store < 256 ^ 8
      → revision bolt m'.store < 256 ^ 8
  unfolding Effect
  Effect-small m l m' (inl e) small =
      subst (λ (k : Machine bolt out disk root). revision bolt k.store < 256 ^ 8) (sym e) small
  Effect-small m l m' (inr moved) small = moved.1

  Effect-Reached :
      (m : Machine bolt out disk root) (l : Log) (m' : Machine bolt out disk root)
      → 0 < l.index
      → m' ≡ (apply bolt out disk root m l).0
      → Effect m l m'
      → Reached m' l
  unfolding Effect Reached Settled
  Effect-Reached m l m' pos made (inl e) = inr (
      subst (λ (k : Machine bolt out disk root). (apply bolt out disk root k l).0 ≡ k) (sym e)
        (sym made ∙ e))
  Effect-Reached m l m' pos made (inr moved) = inl (ground (arith, moved.0))

  later-Reached :
      (m : Machine bolt out disk root) (l k : Log) (m' : Machine bolt out disk root)
      → l.index < k.index
      → Effect m k m'
      → Reached m l
      → Reached m' l
  unfolding Effect Reached
  later-Reached m l k m' order (inl e) reached = subst (λ x. Reached x l) (sym e) reached
  later-Reached m l k m' order (inr moved) reached = inl (ground (arith, moved.0))

  apply_all-Reached :
      (m : Machine bolt out disk root) (l : Log) (logs : List Log)
      → revision bolt m.store < 256 ^ 8
      → All (λ k. l.index < k.index) logs
      → Ordered logs
      → Reached m l
      → Reached (apply_all m logs) l
  unfolding apply_all
  apply_all-Reached m l [] small above ordered reached = reached
  apply_all-Reached m l (k ∷ logs) small above ordered reached =
      let m' = (apply bolt out disk root m k).0 in
      let effect = apply-Effect m k ordered.1 small in
      apply_all-Reached m' l logs (Effect-small m k m' effect small) above.1 ordered.3
        (later-Reached m l k m' above.0 effect reached)

  all-Reached :
      (m : Machine bolt out disk root) (logs : List Log)
      → revision bolt m.store < 256 ^ 8
      → Ordered logs
      → All (Reached (apply_all m logs)) logs
  unfolding apply_all
  all-Reached m [] small ordered = tt
  all-Reached m (l ∷ logs) small ordered =
      let m' = (apply bolt out disk root m l).0 in
      let effect = apply-Effect m l ordered.1 small in
      let small' = Effect-small m l m' effect small in
      (
        apply_all-Reached m' l logs small' ordered.2 ordered.3
            (Effect-Reached m l m' ordered.0 refl effect),
        all-Reached m' logs small' ordered.3,
      )

  Reached-Settled :
      (m : Machine bolt out disk root) (l : Log) → 0 < l.index → Reached m l → Settled m l
  unfolding Reached Settled
  Reached-Settled m l pos (inl near) = apply_replayed m l pos near
  Reached-Settled m l pos (inr settled) = settled

  apply_all-Settled :
      (m : Machine bolt out disk root) (logs : List Log)
      → Ordered logs
      → All (Reached m) logs
      → apply_all m logs ≡ m
  unfolding apply_all Settled
  apply_all-Settled m [] ordered reached = refl
  apply_all-Settled m (l ∷ logs) ordered reached =
      let same = Reached-Settled m l ordered.0 reached.0 in
      rw same (apply_all-Settled m logs ordered.3 reached.1)

  -- Raft hands the log to the machine again after a restart: where the revision is a uint64, to apply
  -- entries with rising uint64 indexes above 0 a second time changes neither the store nor the files,
  -- whatever the entries are, those that failed or were refused among them.
  pub replay_restart :
      (m : Machine bolt out disk root) (logs : List Log)
      → revision bolt m.store < 256 ^ 8
      → Ordered logs
      → apply_all (apply_all m logs) logs ≡ apply_all m logs
  replay_restart m logs small ordered =
      apply_all-Settled (apply_all m logs) logs ordered (all-Reached m logs small ordered)
