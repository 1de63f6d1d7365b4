-- ===== src/Controlplane/Machine/Owners.antt =====
-- The invariant of the canonical state that `Apply` of internal/controlplane/fsm.go guards: every
-- route has its owner, and routes of different owners do not overlap.
use mathlib.Core.Path.{subst}
use bpc.Base.{ℕ, ◌^◌, ◌<◌, List, [], ◌∷◌, Bytes, All, Result, Result-cases, inl, inr, sym}
use bpc.Controlplane.RaftLog.{Log}
use bpc.Controlplane.Bolt.{Bolt}
use bpc.Controlplane.Store.{Store, revision}
use bpc.Controlplane.Command.{Operation, Mutation, check_command}
use bpc.Controlplane.Ownership.Owned.{Owned}
use bpc.Controlplane.Machine.{
  Disk, Outside, ApplyError, Outcome, committed, Machine, transact, report, finish, apply,
}
use bpc.Controlplane.Machine.Branches.{
  Transacted, is_replay, is_conflict, is_commit, is_failure, transact-Transacted,
}
use bpc.Controlplane.Machine.Replay.{
  apply_all, report-store, check_command-source, apply-Effect, Effect-small,
}

module _ (bolt : Bolt) (out : Outside) where
  -- The owners of the canonical state of a store.
  abbrev pub OwnedStore : Store bolt → Type 0
  OwnedStore s = Owned out.json (λ k. bolt.get k s.canonical)

  Transacted-Owned :
      (disk : Disk) (root : Bytes) (m : Machine bolt out disk root) (index : ℕ) (c : Mutation)
      (ops : List Operation) (r : Result ApplyError (Store bolt × Outcome))
      → OwnedStore m.store
      → Transacted bolt out index c ops m.store r
      → OwnedStore (finish bolt out disk root m ops r).0.store
  unfolding finish
  Transacted-Owned disk root m index c ops r owned (is_failure e new why) = owned
  Transacted-Owned disk root m index c ops r owned (is_replay pos near) = unfold report in owned
  Transacted-Owned disk root m index c ops r owned (is_conflict s why new g keeps rev idx) =
      unfold report in subst (λ b. Owned out.json (λ k. bolt.get k b)) (sym keeps.canonical) owned
  Transacted-Owned disk root m index c ops r owned
        (is_commit s next new met step puts routes logs stable rev schema idx) =
      let same = report-store bolt out disk root (record m { store = s }) ops (committed next) in
      subst OwnedStore (sym same) routes

module _ (bolt : Bolt) (out : Outside) (disk : Disk) (root : Bytes) where
  apply-Owned :
      (m : Machine bolt out disk root) (log : Log)
      → log.index < 256 ^ 8
      → revision bolt m.store < 256 ^ 8
      → OwnedStore bolt out m.store
      → OwnedStore bolt out (apply bolt out disk root m log).0.store
  unfolding apply
  apply-Owned m log fits small owned =
      elim (Result-cases (check_command (out.decode_mutation log.log_data))) [
        | inr (e, h) ↦ rw (h, apply) owned
        | inl ((c, ops), h) ↦
            let least =
              out.minimum_lt log.log_data c
                (check_command-source (out.decode_mutation log.log_data) c ops h) in
            rw (h, apply)
              (Transacted-Owned bolt out disk root m log.index c ops
                (transact bolt out log.index c ops m.store) owned
                (transact-Transacted bolt out log.index c ops m.store fits small least))
      ]

  -- No entries of the log, whatever they hold, take a canonical state in which every route record
  -- names as its owner a Node whose record is that of a site router, not revoked and with a grant that
  -- covers the route's IPv4 prefix, and in which no address is in two routes of different owners, to
  -- one in which that fails. The revision and the indexes are uint64s.
  pub apply_all-Owned :
      (m : Machine bolt out disk root) (logs : List Log)
      → revision bolt m.store < 256 ^ 8
      → All (λ l. l.index < 256 ^ 8) logs
      → OwnedStore bolt out m.store
      → OwnedStore bolt out (apply_all bolt out disk root m logs).store
  unfolding apply_all
  apply_all-Owned m [] small fits owned = owned
  apply_all-Owned m (l ∷ logs) small fits owned =
      apply_all-Owned (apply bolt out disk root m l).0 logs
        (Effect-small bolt out disk root m l _ (apply-Effect bolt out disk root m l fits.0 small)
          small)
        fits.1 (apply-Owned m l fits.0 small owned)
