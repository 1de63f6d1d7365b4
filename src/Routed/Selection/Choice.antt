-- ===== src/Routed/Selection/Choice.antt =====
-- What `choosePath` of internal/routed/router.go may choose.
use mathlib.Core.List.{Memᴰ}
use mathlib.Core.List.Permᴰ
use mathlib.Core.Path.{subst}
use bpc.Base.{
  ℕ, false, ◌||◌, List, ◌∷◌, Bytes, bytes_eq, bytes_eq_iff, none, some, ◌≡◌, ◌≢◌, refl, sym, ◌∙◌,
  arith, All, ap, List-cases, Option-cases, Bool-cases, inl, inr,
}
use bpc.Base.Float.{Float}
use bpc.Base.Sort.{Sorter, sort_min, nothing-Memᴰ, Memᴰ-All, Memᴰ-of_Permᴰ}
use bpc.Base.Dict.{Dict, lookup}
use bpc.Routed.Config.{RoutePath}
use bpc.Routed.Selection.{
  PathAvailability, forget_others, observe_paths, recovering, MeshView, RouteSelection, Scored,
  viable_path, candidates_of, better, find_current, challenge, select, choose_path, within,
  path_recovery_cooldown, path_stable_interval, path_minimum_improvement,
}
use bpc.Routed.Selection.Candidates.{
  better-StrictWeak, IsCandidate, candidates-IsCandidate, IsCandidate-candidates, find_current-Memᴰ,
  find_current-none,
}

module _ (fl : Float) where
  open fl use {F, sub, lt, eq}

  -- How `select` came to its answer.
  data Selected (state : RouteSelection) (best : Scored fl) (ss : List (Scored fl)) (now : ℕ)
      (p : RoutePath F) : Type 0 where
    first_best :
        find_current fl state.current_id ss ≡ none → best.path ≡ p → Selected state best ss now p
    kept_current :
        (current : Scored fl)
        → find_current fl state.current_id ss ≡ some current
        → current.path ≡ p
        → Selected state best ss now p
    earned :
        (current : Scored fl)
        → find_current fl state.current_id ss ≡ some current
        → best.path ≡ p
        → within state.last_switch now path_recovery_cooldown ≡ false
        → lt (sub current.score best.score) (path_minimum_improvement fl) ≡ false
        → state.candidate_id ≡ best.path.id
        → within state.candidate_since now path_stable_interval ≡ false
        → Selected state best ss now p

  challenge-Selected :
      (state : RouteSelection) (current best : Scored fl) (ss : List (Scored fl)) (now : ℕ)
      (p : RoutePath F)
      → find_current fl state.current_id ss ≡ some current
      → (challenge fl state current best now).1 ≡ p
      → Selected state best ss now p
  unfolding challenge
  challenge-Selected state current best ss now p found h =
      elim (Bool-cases (within state.last_switch now path_recovery_cooldown)) [
        | inl e ↦ kept_current current found (ground arith)
        | inr e ↦
            elim (Bool-cases (lt (sub current.score best.score) (path_minimum_improvement fl))) [
              | inl f ↦ kept_current current found (ground arith)
              | inr f ↦ elim (Bool-cases (bytes_eq state.candidate_id best.path.id)) [
                | inr g ↦ kept_current current found (ground arith)
                | inl g ↦
                    elim (Bool-cases (
                      recovering fl (lookup best.path.id state.availability) now
                      || within state.candidate_since now path_stable_interval)) [
                        | inl k ↦ kept_current current found (ground arith)
                        | inr k ↦
                            earned current found (ground arith) e f
                              ((bytes_eq_iff state.candidate_id best.path.id).0 g) (ground arith)
                      ]
              ]
            ]
      ]

  select-Selected :
      (state : RouteSelection) (best : Scored fl) (others : List (Scored fl)) (now : ℕ)
      (p : RoutePath F)
      → (select fl state (best ∷ others) now).1 ≡ some p
      → Selected state best (best ∷ others) now p
  unfolding select
  select-Selected state best others now p h =
      elim (Option-cases (find_current fl state.current_id (best ∷ others))) [
        | inl e ↦ first_best e (ground arith)
        | inr (current, e) ↦ elim (Bool-cases (bytes_eq best.path.id current.path.id)) [
          | inl same ↦ kept_current current e (ground arith)
          | inr differ ↦
              challenge-Selected state current best (best ∷ others) now p e (ground arith)
        ]
      ]

  select-some :
      (state : RouteSelection) (best : Scored fl) (others : List (Scored fl)) (now : ℕ)
      → (q : RoutePath F) × ((select fl state (best ∷ others) now).1 ≡ some q)
  unfolding select
  select-some state best others now =
      elim (Option-cases (find_current fl state.current_id (best ∷ others))) [
        | inl e ↦ (best.path, ground arith)
        | inr (current, e) ↦ elim (Bool-cases (bytes_eq best.path.id current.path.id)) [
          | inl same ↦ (current.path, ground arith)
          | inr differ ↦ ((challenge fl state current best now).1, ground arith)
        ]
      ]

  -- What justifies the answer `p` of `choose_path`, in the state before the call.
  pub data Choice (mesh : MeshView F) (local : Bytes) (state : RouteSelection)
      (paths : List (RoutePath F)) (now : ℕ) (p : RoutePath F) : Type 0 where
    failover :
        (s : Scored fl)
        → IsCandidate fl mesh local paths s
        → s.path ≡ p
        → All (λ t. lt t.score s.score ≡ false) (candidates_of fl mesh local paths)
        → All (λ t. t.path.id ≢ state.current_id) (candidates_of fl mesh local paths)
        → Choice mesh local state paths now p
    stayed :
        (s : Scored fl)
        → IsCandidate fl mesh local paths s
        → s.path ≡ p
        → p.id ≡ state.current_id
        → Choice mesh local state paths now p
    switched :
        (s current : Scored fl)
        → IsCandidate fl mesh local paths s
        → s.path ≡ p
        → All (λ t. lt t.score s.score ≡ false) (candidates_of fl mesh local paths)
        → IsCandidate fl mesh local paths current
        → current.path.id ≡ state.current_id
        → within state.last_switch now path_recovery_cooldown ≡ false
        → lt (sub current.score s.score) (path_minimum_improvement fl) ≡ false
        → state.candidate_id ≡ p.id
        → within state.candidate_since now path_stable_interval ≡ false
        → Choice mesh local state paths now p

  module _ (sorter : Sorter) (mesh : MeshView F) (local : Bytes) (paths : List (RoutePath F)) where
    abbrev ranked : List (Scored fl)
    ranked = sorter.sort (better fl) (candidates_of fl mesh local paths)

    ranked-IsCandidate : (s : Scored fl) → Memᴰ s ranked → IsCandidate fl mesh local paths s
    ranked-IsCandidate s m =
        candidates-IsCandidate fl mesh local paths s
          (Memᴰ-of_Permᴰ (sorter.sort-perm (better fl) (candidates_of fl mesh local paths)) m)

    into_ranked : (s : Scored fl) → Memᴰ s (candidates_of fl mesh local paths) → Memᴰ s ranked
    into_ranked s m =
        Memᴰ-of_Permᴰ
          (Permᴰ.symm (sorter.sort-perm (better fl) (candidates_of fl mesh local paths))) m

    best_score :
        (best : Scored fl) (others : List (Scored fl))
        → ranked ≡ best ∷ others
        → All (λ t. lt t.score best.score ≡ false) (candidates_of fl mesh local paths)
    best_score best others e =
        Memᴰ-All (λ t. lt t.score best.score ≡ false) (candidates_of fl mesh local paths)
          λ t m.
            let least =
              sort_min sorter (better fl) (better-StrictWeak fl) (candidates_of fl mesh local paths)
                e m in
            ground (arith, fl.eq_iff t.score best.score)

    Selected-Choice :
        (state : RouteSelection) (seen : Dict PathAvailability) (best : Scored fl)
        (others : List (Scored fl)) (now : ℕ) (p : RoutePath F)
        → ranked ≡ best ∷ others
        → Selected (record state { availability = seen }) best ranked now p
        → Choice mesh local state paths now p
    Selected-Choice state seen best others now p e (first_best missing f) =
        failover best (ranked-IsCandidate best (subst (Memᴰ best) (sym e) (Memᴰ.head refl))) f
          (best_score best others e)
          (Memᴰ-All (λ t. t.path.id ≢ state.current_id) (candidates_of fl mesh local paths)
            (λ t m. find_current-none fl state.current_id ranked t missing (into_ranked t m)))
    Selected-Choice state seen best others now p e (kept_current current found f) =
        let (m, id) = find_current-Memᴰ fl state.current_id ranked current found in
        stayed current (ranked-IsCandidate current m) f
          (sym (ap (λ (q : RoutePath F). q.id) f) ∙ id)
    Selected-Choice state seen best others now p e (earned current found f cool gain same stable) =
        let (m, id) = find_current-Memᴰ fl state.current_id ranked current found in
        switched best current (ranked-IsCandidate best (subst (Memᴰ best) (sym e) (Memᴰ.head refl)))
          f (best_score best others e) (ranked-IsCandidate current m) id cool gain
          (same ∙ ap (λ (q : RoutePath F). q.id) f) stable

    -- A path that `choose_path` answers is viable, and one of these holds: no viable path is the
    -- current one, and the answer has the best score; or the answer is the current path; or the
    -- current path is viable, the answer has the best score, beats it by the minimum improvement,
    -- was the candidate for the stable interval, and the last switch is a cooldown ago.
    pub choose_path-Choice :
        (state : RouteSelection) (now : ℕ) (p : RoutePath F)
        → (choose_path fl sorter mesh local state paths now).1 ≡ some p
        → Choice mesh local state paths now p
    unfolding choose_path select
    choose_path-Choice state now p h =
        let seen =
          forget_others fl paths (observe_paths fl mesh local now state.availability paths) in
        let looked = record state { availability = seen } in
        elim (List-cases ranked) [
          | inl e ↦ absurd (ground arith)
          | inr (best, others, e) ↦ Selected-Choice state seen best others now p e (
              subst (λ ss. Selected looked best ss now p) (sym e)
                (select-Selected looked best others now p (rw e at h)))
        ]

    -- `choose_path` answers a path whenever one of the paths is viable.
    pub choose_path_total :
        (state : RouteSelection) (now : ℕ) (p : RoutePath F) (score : F)
        → Memᴰ p paths
        → viable_path fl mesh local p ≡ some score
        → (q : RoutePath F) × ((choose_path fl sorter mesh local state paths now).1 ≡ some q)
    unfolding choose_path
    choose_path_total state now p score m v =
        let s : Scored fl = record { path = p; score = score } in
        let seen =
          forget_others fl paths (observe_paths fl mesh local now state.availability paths) in
        elim (List-cases ranked) [
          | inl e ↦ absurd (
              nothing-Memᴰ (
                subst (Memᴰ s) e
                  (into_ranked s (IsCandidate-candidates fl mesh local paths p score m v))))
          | inr (best, others, e) ↦
              let (q, f) = select-some (record state { availability = seen }) best others now in
              (q, rw e f)
        ]
