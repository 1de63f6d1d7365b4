-- ===== src/Wgshim/PathManager/Runs.antt =====
-- Every run of the manager of internal/wgshim/path.go, from `NewPathManager` on.
use mathlib.Core.Path.{subst}
use bpc.Base.{
  ℕ, ◌≡◌, false, List, [], ◌∷◌, ◌==◌, map, length, get_elem?, get_elem?-lt, All, Bytes, Option,
  none, some, Bool-cases, Option-cases, inl, inr, refl, arith,
}
use bpc.Base.Int.{ℤ}
use bpc.Base.Float.{Float}
use bpc.Base.Sort.{Sorter}
use bpc.Wgshim.PathManager.{PathPolicy, PathState, PathManager, observe, new_path, new_path_manager}
use bpc.Wgshim.PathManager.Select.{
  Answer, fall_back, best_path, confirm_traffic, mark_sent, overdue, returning, decide, select_from,
  select, migration_fallback,
}
use bpc.Wgshim.PathManager.Range.{
  IsValid, Elsewhere, Sampled, observe-IsValid, select-IsValid, confirm_traffic-IsValid,
  mark_sent-IsValid,
}

module _ (float : Float) (sorter : Sorter) where
  open float use {F}

  -- The methods that change the manager. A call that panics has no result, so it is no step.
  pub data Step (m : PathManager F) : PathManager F → Type 0 where
    observes :
        (index sent : ℤ) (replies : List ℕ) (now : ℕ)
        → Step m (observe float sorter m index sent replies now)
    selects : (now : ℕ) (r : PathManager F × Answer) → select float m now ≡ some r → Step m r.0
    confirms : (endpoint : Bytes) (now : ℕ) → Step m (confirm_traffic float m endpoint now)
    sends : (index now : ℕ) → Step m (mark_sent float m index now)

  pub data Run (m : PathManager F) : PathManager F → Type 0 where
    start : Run m m
    next : (m1 m2 : PathManager F) → Run m m1 → Step m1 m2 → Run m m2

  Step-IsValid : (m m' : PathManager F) → IsValid F m → Step m m' → IsValid F m'
  Step-IsValid m m' v (observes index sent replies now) =
      observe-IsValid float sorter m index sent replies now v
  Step-IsValid m m' v (selects now r h) = select-IsValid float m now r v h
  Step-IsValid m m' v (confirms endpoint now) = confirm_traffic-IsValid float m endpoint now v
  Step-IsValid m m' v (sends index now) = mark_sent-IsValid float m index now v

  Run-IsValid : (m m' : PathManager F) → IsValid F m → Run m m' → IsValid F m'
  Run-IsValid m m' v start = v
  Run-IsValid m m' v (next m1 m2 run step) = Step-IsValid m1 m2 (Run-IsValid m m1 v run) step

  fresh-Sampled : (endpoints : List Bytes) → All Sampled (map (new_path float) endpoints)
  unfolding new_path
  fresh-Sampled [] = tt
  fresh-Sampled (e ∷ endpoints) = (omega arith, fresh-Sampled endpoints)

  new_path_manager-IsValid :
      (endpoint : Bytes) (endpoints : List Bytes) (policy : PathPolicy ℤ)
      → IsValid F (new_path_manager float (endpoint ∷ endpoints) policy)
  unfolding new_path_manager
  new_path_manager-IsValid endpoint endpoints policy = record {
    active_lt = omega arith;
    candidate_there = tt;
    previous_there = tt;
    sampled = fresh-Sampled (endpoint ∷ endpoints);
  }

  -- In a valid manager no index is out of range.
  previous_path :
      (m : PathManager F) (from : ℕ)
      → IsValid F m
      → m.migrating_from ≡ some from
      → (q : PathState F) × (get_elem? m.paths from ≡ some q)
  previous_path m from v e =
      let there =
        subst (λ (o : Option ℕ). Elsewhere o m.active (length m.paths)) e v.previous_there in
      get_elem?-lt m.paths from there.0

  returning_total :
      (m : PathManager F) (now : ℕ)
      → IsValid F m
      → (o : Option ℕ) × (returning float m now ≡ some o)
  unfolding returning
  returning_total m now v = elim (Option-cases m.migrating_from) [
    | inl e ↦ (none, simp (e, returning) refl)
    | inr (from, e) ↦
        let (q, f) = previous_path m from v e in
        elim (Bool-cases (overdue m.migration_started now)) [
          | inr g ↦ (none, simp (e, g, returning) refl)
          | inl g ↦ elim (Bool-cases q.reachable) [
            | inl h ↦ (some from, simp (e, f, g, h, returning) refl)
            | inr h ↦ (none, simp (e, f, g, h, returning) refl)
          ]
        ]
  ]

  select_from_total :
      (m : PathManager F) (current : PathState F) (now : ℕ) (o : Option ℕ)
      → returning float m now ≡ some o
      → (r : PathManager F × Answer) × (select_from float m current now ≡ some r)
  unfolding select_from
  select_from_total m current now none f = (
    decide float m current (best_path float m.policy current.reachable now 0 m.paths none) now,
    simp (f, select_from) refl,
  )
  select_from_total m current now (some from) f =
      (fall_back float m from current now, simp (f, select_from) refl)

  select_total :
      (m : PathManager F) (now : ℕ)
      → IsValid F m
      → (r : PathManager F × Answer) × (select float m now ≡ some r)
  unfolding select
  select_total m now v =
      let (current, e) = get_elem?-lt m.paths m.active v.active_lt in
      let some_paths : (length m.paths == 0) ≡ false = ground (arith, v.active_lt) in
      let (o, f) = returning_total m now v in
      let (r, g) = select_from_total m current now o f in (r, simp (some_paths, e, select) g)

  migration_fallback_total :
      (m : PathManager F) → IsValid F m → (o : Option ℕ) × (migration_fallback float m ≡ some o)
  unfolding migration_fallback
  migration_fallback_total m v = elim (Option-cases m.migrating_from) [
    | inl e ↦ (none, simp (e, migration_fallback) refl)
    | inr (from, e) ↦
        let (q, f) = previous_path m from v e in
        elim (Bool-cases q.reachable) [
          | inl h ↦ (some from, simp (e, f, h, migration_fallback) refl)
          | inr h ↦ (none, simp (e, f, h, migration_fallback) refl)
        ]
  ]

  -- Whatever a manager of at least one endpoint has been through, its indexes name paths, with the
  -- candidate and the path that is being left apart from the active one, no path keeps more than 32
  -- samples, and neither `Select` nor `MigrationFallback` panics.
  pub Run-Safe :
      (endpoint : Bytes) (endpoints : List Bytes) (policy : PathPolicy ℤ) (m : PathManager F)
      (now : ℕ)
      → Run (new_path_manager float (endpoint ∷ endpoints) policy) m
      → IsValid F m
        × ((r : PathManager F × Answer) × (select float m now ≡ some r))
        × ((o : Option ℕ) × (migration_fallback float m ≡ some o))
  Run-Safe endpoint endpoints policy m now run =
      let v = Run-IsValid _ m (new_path_manager-IsValid endpoint endpoints policy) run in
      (v, select_total m now v, migration_fallback_total m v)
