-- ===== src/Wgshim/PathManager/Select.antt =====
-- internal/wgshim/path.go: `Select`, `ConfirmTraffic`, `MarkSent`, `MigrationFallback`, `Snapshot`.
use bpc.Base.{
  ℕ, ◌+◌, ◌*◌, ◌%◌, ◌^◌, Bool, false, not, ◌&&◌, List, [], ◌∷◌, suc, ◌==◌, if◌then◌else◌, length,
  get_elem?, set, Bytes, bytes_eq, Option, none, some,
}
use bpc.Base.Float.{Float}
use bpc.Wgshim.PathManager.{
  PathPolicy, PathState, PathManager, State, probing, failed, standby, active_state, verifying,
  second, millisecond, is_set, since_lt, since_gt, score,
}

-- Whether an index is this one.
abbrev pub index_is : Option ℕ → ℕ → Bool
index_is none i = false
index_is (some j) i = j == i

-- Whether a path has recovered within the cooldown.
abbrev pub cooling : Option ℕ → ℕ → ℕ → Bool
cooling none now cooldown = false
cooling (some since) now cooldown = since_lt now since cooldown

-- Whether the confirmation of a migration is more than 2 seconds late.
unfoldable pub overdue : Option ℕ → ℕ → Bool
overdue none now = false
overdue (some started) now = since_gt now started (2 * second)

pub data Answer : Type 0 where
  nothing : Answer
  stay switched : ℕ → Answer

module _ (float : Float) where
  open float use {F, of_ℕ, sub, div, lt}

  -- A path that the loop of `Select` does not pass over.
  unfoldable pub eligible : PathPolicy ℕ → Bool → ℕ → PathState F → Bool
  eligible policy current_usable now p =
      p.reachable
      && (p.consecutive_failures == 0
          && not (current_usable && cooling p.recovered_at now policy.recovery_cooldown))

  -- The loop over the paths, with the best index and path so far.
  unfoldable pub best_path :
      PathPolicy ℕ
      → Bool
      → ℕ
      → ℕ
      → List (PathState F)
      → Option (ℕ × PathState F)
      → Option (ℕ × PathState F)
  best_path policy usable now i [] best = best
  best_path policy usable now i (p ∷ ps) best = best_path policy usable now (suc i) ps (
      if not (eligible policy usable now p) then best else elim best [
        | none ↦ some (i, p)
        | some b ↦
            if lt (score float policy p now) (score float policy b.1 now)
            then some (i, p)
            else some b
      ])

  -- Back to the previous path: the traffic over the new one was not confirmed in time.
  unfoldable pub fall_back : PathManager F → ℕ → PathState F → ℕ → PathManager F × Answer
  fall_back m from p now = (
    record m {
      paths = set m.paths m.active (record p {
        failed_at = some now;
        reachable = false;
        failure_count = (p.failure_count + 1) % 2 ^ 64;
      });
      active = from;
      migrating_from = none;
      candidate = none;
    },
    switched from,
  )

  unfoldable pub keep_active : PathManager F → PathManager F × Answer
  keep_active m = (record m { candidate = none }, stay m.active)

  unfoldable pub migrate : PathManager F → ℕ → PathManager F × Answer
  migrate m best = (
    record m {
      migrating_from = some m.active;
      migration_started = none;
      active = best;
      candidate = none;
    },
    switched best,
  )

  -- Whether the best path is better than the active one by less than the policy asks.
  pub too_close : PathManager F → PathState F → PathState F → ℕ → Bool
  too_close m current best now =
      lt (sub (score float m.policy current now) (score float m.policy best now))
        (div (of_ℕ m.policy.minimum_improvement) (of_ℕ millisecond))

  -- From the choice of the best path on.
  unfoldable pub decide :
      PathManager F → PathState F → Option (ℕ × PathState F) → ℕ → PathManager F × Answer
  decide m current none now = keep_active m
  decide m current (some (best, p)) now =
      if best == m.active
      then keep_active m
      else if not current.reachable
      then migrate m best
      else if too_close m current p now
      then keep_active m
      else if not (index_is m.candidate best)
      then (record m { candidate = some best; candidate_since = some now }, stay m.active)
      else if cooling m.candidate_since now m.policy.minimum_stable_duration
      then (m, stay m.active)
      else migrate m best

  -- `m.paths[m.migratingFrom]` is read only where the confirmation is late.
  unfoldable pub returning : PathManager F → ℕ → Option (Option ℕ)
  returning m now = elim m.migrating_from [
    | none ↦ some none
    | some from ↦
        if not (overdue m.migration_started now) then some none else elim (get_elem? m.paths from) [
          | none ↦ none
          | some q ↦ if q.reachable then some (some from) else some none
        ]
  ]

  -- With the active path.
  unfoldable pub select_from : PathManager F → PathState F → ℕ → Option (PathManager F × Answer)
  select_from m current now = elim (returning m now) [
    | none ↦ none
    | some (some from) ↦ some (fall_back m from current now)
    | some none ↦
        some (decide m current (best_path m.policy current.reachable now 0 m.paths none) now)
  ]

  unfoldable pub select : PathManager F → ℕ → Option (PathManager F × Answer)
  select m now =
      if length m.paths == 0 then some (m, nothing) else elim (get_elem? m.paths m.active) [
        | none ↦ none
        | some current ↦ select_from m current now
      ]

  -- The index of the first path to the endpoint, and the path.
  unfoldable pub find_endpoint : Bytes → ℕ → List (PathState F) → Option (ℕ × PathState F)
  find_endpoint endpoint i [] = none
  find_endpoint endpoint i (p ∷ ps) =
      let rest = find_endpoint endpoint (suc i) ps in
      if bytes_eq p.endpoint endpoint then some (i, p) else rest

  unfoldable pub confirm_traffic : PathManager F → Bytes → ℕ → PathManager F
  confirm_traffic m endpoint now = elim (find_endpoint endpoint 0 m.paths) [
    | none ↦ m
    | some (i, p) ↦ record m {
      paths = set m.paths i (record p { last_traffic = some now });
      migrating_from = if i == m.active then none else m.migrating_from;
    }
  ]

  unfoldable pub mark_sent : PathManager F → ℕ → ℕ → PathManager F
  mark_sent m index now =
      if index == m.active && (is_set m.migrating_from && not (is_set m.migration_started))
      then record m { migration_started = some now }
      else m

  -- The outer `none` is the panic.
  unfoldable pub migration_fallback : PathManager F → Option (Option ℕ)
  migration_fallback m = elim m.migrating_from [
    | none ↦ some none
    | some from ↦ elim (get_elem? m.paths from) [
      | none ↦ none
      | some p ↦ if p.reachable then some (some from) else some none
    ]
  ]

  state_of : PathManager F → ℕ → PathState F → State
  state_of m i p =
      if i == m.active
      then (if is_set m.migrating_from then verifying else active_state)
      else if p.reachable
      then standby
      else if is_set p.last_success
      then failed
      else probing

  snapshot_from : PathManager F → ℕ → List (PathState F) → List (PathState F × State)
  unfolding state_of
  snapshot_from m i [] = []
  snapshot_from m i (p ∷ ps) = (p, state_of m i p) ∷ snapshot_from m (suc i) ps

  pub snapshot : PathManager F → List (PathState F × State)
  unfolding snapshot_from
  snapshot m = snapshot_from m 0 m.paths
