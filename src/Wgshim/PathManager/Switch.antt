-- ===== src/Wgshim/PathManager/Switch.antt =====
-- When `Select` of internal/wgshim/path.go changes the active path.
use mathlib.Core.List.{Memᴰ}
use mathlib.Core.Path.{subst}
use bpc.Base.{
  ℕ, ◌≡◌, ◌≢◌, Bool, true, false, List, [], ◌∷◌, ◌==◌, length, get_elem?, none, some, Bool-cases,
  Option-cases, ◌⊎◌, inl, inr, refl, sym, ◌∙◌, ap, arith,
}
use bpc.Base.Float.{Float}
use bpc.Wgshim.PathManager.{PathPolicy, PathState, PathManager}
use bpc.Wgshim.PathManager.Select.{
  eligible, switched, migrate, decide, overdue, returning, select_from, select,
}
use bpc.Wgshim.PathManager.Best.{Winner, good, best_path-Winner, best_path_total}
use bpc.Wgshim.PathManager.Outcomes.{Earned}

module _ (float : Float) where
  open float use {F}

  -- The state behind a switch to a path, and why it came about.
  pub data Switch (m : PathManager F) (now : ℕ) (m' : PathManager F) (i : ℕ) : Type 0 where
    back :
        (q : PathState F)
        → m.migrating_from ≡ some i
        → overdue m.migration_started now ≡ true
        → get_elem? m.paths i ≡ some q
        → q.reachable ≡ true
        → m'.active ≡ i
        → m'.migrating_from ≡ none
        → Switch m now m' i
    onward :
        (current p : PathState F)
        → get_elem? m.paths m.active ≡ some current
        → i ≢ m.active
        → Winner float m.policy current.reachable now m.paths i p
        → Earned float m current i p now
        → m'.active ≡ i
        → m'.migrating_from ≡ some m.active
        → m'.migration_started ≡ none
        → Switch m now m' i

  good-emergency :
      (policy : PathPolicy ℕ) (now : ℕ) (q : PathState F)
      → q.reachable ≡ true
      → q.consecutive_failures ≡ 0
      → good float policy false now q ≡ true
  unfolding eligible
  good-emergency policy now q up sound = simp (up, sound) refl

  good-reachable :
      (policy : PathPolicy ℕ) (usable : Bool) (now : ℕ) (q : PathState F)
      → good float policy usable now q ≡ true
      → q.reachable ≡ true
  unfolding eligible
  good-reachable policy usable now q h = ground arith

  -- An unreachable path is another one than a reachable one.
  other_index :
      (ps : List (PathState F)) (i j : ℕ) (p q : PathState F)
      → get_elem? ps i ≡ some p
      → p.reachable ≡ true
      → get_elem? ps j ≡ some q
      → q.reachable ≡ false
      → (i == j) ≡ false
  other_index ps i j p q e up f down = elim (Bool-cases (i == j)) [
    | inr g ↦ g
    | inl g ↦
        let same : i ≡ j = ground arith in
        let found : some p ≡ some q = sym e ∙ ap (get_elem? ps) same ∙ f in
        let path : p ≡ q = ground arith in
        absurd (ground (arith, subst (λ (x : PathState F). x.reachable ≡ true) path up))
  ]

  returning-none :
      (m : PathManager F) (now : ℕ)
      → (m.migrating_from ≡ none) ⊎ (overdue m.migration_started now ≡ false)
      → returning float m now ≡ some none
  unfolding returning
  returning-none m now (inl e) = simp (e, returning) refl
  returning-none m now (inr h) = elim (Option-cases m.migrating_from) [
    | inl e ↦ simp (e, returning) refl
    | inr (k, e) ↦ simp (e, h, returning) refl
  ]

  some_paths :
      (ps : List (PathState F)) (i : ℕ) (p : PathState F)
      → get_elem? ps i ≡ some p
      → (length ps == 0) ≡ false
  some_paths [] i p h = absurd (ground arith)
  some_paths (q ∷ ps) i p h = ground arith

  -- Where the active path is not reachable, some path is reachable and without failures, and no
  -- path is being left or its confirmation is not late, `Select` switches at once.
  pub select_emergency :
      (m : PathManager F) (now : ℕ) (current q : PathState F)
      → get_elem? m.paths m.active ≡ some current
      → current.reachable ≡ false
      → (m.migrating_from ≡ none) ⊎ (overdue m.migration_started now ≡ false)
      → Memᴰ q m.paths
      → q.reachable ≡ true
      → q.consecutive_failures ≡ 0
      → (m' : PathManager F) × (i : ℕ) × (select float m now ≡ some (m', switched i))
  unfolding select select_from decide migrate
  select_emergency m now current q here down in_time n up sound =
      let eligible_one = good-emergency m.policy now q up sound in
      let ((b, p), found) = best_path_total float m.policy false now 0 m.paths q n eligible_one in
      let best = best_path-Winner float m.policy false now m.paths b p found in
      let reachable = good-reachable m.policy false now p best.is_good in
      let other = other_index m.paths b m.active p current best.place reachable here down in
      (
        (migrate float m b).0,
        b,
        simp
            (
              some_paths m.paths m.active current here,
              here,
              returning-none m now in_time,
              down,
              found,
              other,
              select,
              select_from,
              decide,
            )
            refl,
      )
