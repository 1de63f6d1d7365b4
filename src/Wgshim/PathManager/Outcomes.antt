-- ===== src/Wgshim/PathManager/Outcomes.antt =====
-- The outcomes of `Select` of internal/wgshim/path.go.
use mathlib.Core.Path.{subst}
use bpc.Base.{
  ℕ, ◌≡◌, ◌≢◌, true, false, ◌==◌, length, get_elem?, Option, none, some, Bool-cases, Option-cases,
  inl, inr, refl, ◌∙◌, ap, arith,
}
use bpc.Base.Float.{Float}
use bpc.Wgshim.PathManager.{PathState, PathManager}
use bpc.Wgshim.PathManager.Select.{
  Answer, nothing, stay, index_is, cooling, best_path, fall_back, keep_active, migrate, too_close,
  decide, overdue, returning, select_from, select,
}

module _ (float : Float) where
  open float use {F}

  -- Why the active path gives way to the best one: it is not reachable, or the best one was better
  -- by the minimum improvement for the stable duration.
  pub data Earned (m : PathManager F) (current : PathState F) (best : ℕ) (p : PathState F) (now : ℕ)
      : Type 0 where
    emergency : current.reachable ≡ false → Earned m current best p now
    improvement :
        too_close float m current p now ≡ false
        → m.candidate ≡ some best
        → cooling m.candidate_since now m.policy.minimum_stable_duration ≡ false
        → Earned m current best p now

  -- What `Select` does where no confirmation is late.
  pub data Decided (m : PathManager F) (current : PathState F) (best : Option (ℕ × PathState F))
      (now : ℕ) : PathManager F × Answer → Type 0 where
    keeps : Decided m current best now (keep_active float m)
    waits : Decided m current best now (m, stay m.active)
    nominates :
        (b : ℕ) (p : PathState F)
        → best ≡ some (b, p)
        → b ≢ m.active
        → Decided m current best now
            (record m { candidate = some b; candidate_since = some now }, stay m.active)
    moves :
        (b : ℕ) (p : PathState F)
        → best ≡ some (b, p)
        → b ≢ m.active
        → Earned m current b p now
        → Decided m current best now (migrate float m b)

  index_is-some : (o : Option ℕ) (i : ℕ) → index_is o i ≡ true → o ≡ some i
  index_is-some none i h = absurd (ground arith)
  index_is-some (some j) i h = ground arith

  pub decide-Decided :
      (m : PathManager F) (current : PathState F) (best : Option (ℕ × PathState F)) (now : ℕ)
      → Decided m current best now (decide float m current best now)
  unfolding decide
  decide-Decided m current none now = keeps
  decide-Decided m current (some (b, p)) now = elim (Bool-cases (b == m.active)) [
    | inl e ↦ simp e keeps
    | inr e ↦
        let other : b ≢ m.active = ground arith in
        elim (Bool-cases current.reachable) [
          | inr f ↦ simp (e, f) (moves b p refl other (emergency f))
          | inl f ↦ elim (Bool-cases (too_close float m current p now)) [
            | inl g ↦ simp (e, f, g) keeps
            | inr g ↦ elim (Bool-cases (index_is m.candidate b)) [
              | inr h ↦ simp (e, f, g, h) (nominates b p refl other)
              | inl h ↦
                  elim (Bool-cases
                    (cooling m.candidate_since now m.policy.minimum_stable_duration)) [
                      | inl i ↦ simp (e, f, g, h, i) waits
                      | inr i ↦
                          simp (e, f, g, h, i)
                            (moves b p refl other (improvement g (index_is-some m.candidate b h) i))
                    ]
            ]
          ]
        ]
  ]

  -- The answers of `Select`.
  pub data Selected (m : PathManager F) (now : ℕ) : PathManager F × Answer → Type 0 where
    no_paths : length m.paths ≡ 0 → Selected m now (m, nothing)
    reverts :
        (from : ℕ) (current q : PathState F)
        → get_elem? m.paths m.active ≡ some current
        → m.migrating_from ≡ some from
        → overdue m.migration_started now ≡ true
        → get_elem? m.paths from ≡ some q
        → q.reachable ≡ true
        → Selected m now (fall_back float m from current now)
    decides :
        (current : PathState F) (r : PathManager F × Answer)
        → get_elem? m.paths m.active ≡ some current
        → Decided m current (best_path float m.policy current.reachable now 0 m.paths none) now r
        → Selected m now r

  -- A late confirmation is of a migration from a path that is still reachable.
  returning-some :
      (m : PathManager F) (now from : ℕ)
      → returning float m now ≡ some (some from)
      → (q : PathState F) × (m.migrating_from ≡ some from)
        × (overdue m.migration_started now ≡ true)
        × (get_elem? m.paths from ≡ some q)
        × (q.reachable ≡ true)
  unfolding returning
  returning-some m now from h = elim (Option-cases m.migrating_from) [
    | inl e ↦ absurd (ground arith)
    | inr (k, e) ↦ elim (Bool-cases (overdue m.migration_started now)) [
      | inr f ↦ absurd (ground arith)
      | inl f ↦ elim (Option-cases (get_elem? m.paths k)) [
        | inl g ↦ absurd (ground arith)
        | inr (q, g) ↦ elim (Bool-cases q.reachable) [
          | inr i ↦ absurd (ground arith)
          | inl i ↦
              let same : k ≡ from = ground arith in
              (q, e ∙ ap some same, f, subst (λ (j : ℕ). get_elem? m.paths j ≡ some q) same g, i)
        ]
      ]
    ]
  ]

  select_from-Selected :
      (m : PathManager F) (current : PathState F) (now : ℕ) (r : PathManager F × Answer)
      → get_elem? m.paths m.active ≡ some current
      → select_from float m current now ≡ some r
      → Selected m now r
  unfolding select_from
  select_from-Selected m current now r here h = elim (Option-cases (returning float m now)) [
    | inl e ↦ absurd (ground arith)
    | inr (none, e) ↦
        let best = best_path float m.policy current.reachable now 0 m.paths none in
        let same : decide float m current best now ≡ r = ground arith in
        decides current r here
          (subst (Decided m current best now) same (decide-Decided m current best now))
    | inr (some from, e) ↦
        let (q, f, late, there, up) = returning-some m now from e in
        let same : fall_back float m from current now ≡ r = ground arith in
        subst (Selected m now) same (reverts from current q here f late there up)
  ]

  pub select-Selected :
      (m : PathManager F) (now : ℕ) (r : PathManager F × Answer)
      → select float m now ≡ some r
      → Selected m now r
  unfolding select
  select-Selected m now r h = elim (Bool-cases (length m.paths == 0)) [
    | inl e ↦
        let same : (m, nothing) ≡ r = ground arith in
        subst (Selected m now) same (no_paths (ground arith))
    | inr e ↦ elim (Option-cases (get_elem? m.paths m.active)) [
      | inl f ↦ absurd (ground arith)
      | inr (current, f) ↦ select_from-Selected m current now r f (rw (e, f) at h)
    ]
  ]
