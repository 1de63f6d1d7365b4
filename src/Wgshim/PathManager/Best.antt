-- ===== src/Wgshim/PathManager/Best.antt =====
-- What the loop of `Select` in internal/wgshim/path.go finds.
use mathlib.Core.List.{Memᴰ}
use mathlib.Core.Path.{subst}
use bpc.Base.{
  ℕ, ◌+◌, ◌≡◌, ◌⊎◌, Bool, true, false, not, List, [], ◌∷◌, suc, if◌then◌else◌, get_elem?, Option,
  none, some, Bool-cases, inl, inr, refl, sym, ◌∙◌, ap, arith,
}
use bpc.Base.Float.{Float}
use bpc.Base.Sort.{nothing-Memᴰ}
use bpc.Wgshim.PathManager.{PathPolicy, PathState, score}
use bpc.Wgshim.PathManager.Select.{eligible, best_path}

module _ (float : Float) (policy : PathPolicy ℕ) (usable : Bool) (now : ℕ) where
  open float use {F, lt, lt-StrictWeak}

  abbrev pub good : PathState F → Bool
  good = eligible float policy usable now

  abbrev pub before : PathState F → PathState F → Bool
  before p q = lt (score float policy p now) (score float policy q now)

  abbrev search_from : ℕ → List (PathState F) → Option (ℕ × PathState F) → Option (ℕ × PathState F)
  search_from = best_path float policy usable now

  -- The best path stood before the loop, or is an eligible one of the list at its index.
  data Found (i : ℕ) (ps : List (PathState F)) (best : Option (ℕ × PathState F)) (b : ℕ)
      (p : PathState F) : Type 0 where
    kept : best ≡ some (b, p) → Found i ps best b p
    found : (n : ℕ) → b ≡ i + n → get_elem? ps n ≡ some p → good p ≡ true → Found i ps best b p

  step_best : ℕ → PathState F → Option (ℕ × PathState F) → Option (ℕ × PathState F)
  step_best i p best =
      if not (good p)
      then best
      else elim best [ none ↦ some (i, p) | some b ↦ if before p b.1 then some (i, p) else some b ]

  step_best-Found :
      (i : ℕ) (p : PathState F) (best : Option (ℕ × PathState F)) (b : ℕ) (q : PathState F)
      → step_best i p best ≡ some (b, q)
      → (best ≡ some (b, q)) ⊎ ((good p ≡ true) × (i ≡ b) × (p ≡ q))
  unfolding step_best
  step_best-Found i p none b q h = ground arith
  step_best-Found i p (some c) b q h = ground arith

  search-Found :
      (i : ℕ) (ps : List (PathState F)) (best : Option (ℕ × PathState F)) (b : ℕ) (p : PathState F)
      → search_from i ps best ≡ some (b, p)
      → Found i ps best b p
  unfolding best_path
  search-Found i [] best b p h = kept h
  search-Found i (q ∷ ps) best b p h =
      elim (search-Found (suc i) ps (step_best i q best) b p (unfold step_best in h)) [
        | kept e ↦ elim (step_best-Found i q best b p e) [
          | inl f ↦ kept f
          | inr (g, f, e') ↦
              found 0 (omega (arith, f)) (ap some e') (subst (λ x. good x ≡ true) e' g)
        ]
        | found n e f g ↦ found (suc n) (omega (arith, e)) f g
      ]

  before_asym : (p q : PathState F) → before p q ≡ true → before q p ≡ false
  before_asym p q h = elim (Bool-cases (before q p)) [
    | inr e ↦ e
    | inl e ↦
        let around = lt-StrictWeak.transitive _ _ _ h e in
        absurd (ground (arith, around, lt-StrictWeak.irreflexive (score float policy p now)))
  ]

  -- A round of the loop keeps a path that neither the old best one nor the path at hand beats.
  least_kept :
      (i : ℕ) (p : PathState F) (c : ℕ × PathState F)
      → (d : ℕ × PathState F) × (step_best i p (some c) ≡ some d)
        × (before c.1 d.1 ≡ false)
        × ((good p ≡ true) → (before p d.1 ≡ false))
  unfolding step_best
  least_kept i p c =
      let self = λ (q : PathState F). lt-StrictWeak.irreflexive (score float policy q now) in
      elim (Bool-cases (good p)) [
        | inr e ↦ (c, rw e refl, self c.1, λ h. absurd (ground arith))
        | inl e ↦ elim (Bool-cases (before p c.1)) [
          | inl f ↦ ((i, p), rw (e, f) refl, before_asym p c.1 f, λ h. self p)
          | inr f ↦ (c, rw (e, f) refl, self c.1, λ h. f)
        ]
      ]

  search-least :
      (i : ℕ) (ps : List (PathState F)) (c : ℕ × PathState F) (b : ℕ) (p : PathState F)
      → search_from i ps (some c) ≡ some (b, p)
      → (before c.1 p ≡ false)
        × ((q : PathState F) → Memᴰ q ps → good q ≡ true → before q p ≡ false)
  unfolding best_path
  search-least i [] c b p h =
      let same : c.1 ≡ p = ground arith in
      (
        rw same (lt-StrictWeak.irreflexive (score float policy p now)),
        λ q n g. absurd (nothing-Memᴰ n),
      )
  search-least i (r ∷ ps) c b p h =
      let (d, e, f, g) = least_kept i r c in
      let (low, rest) =
        search-least (suc i) ps d b p
          (ap (search_from (suc i) ps) (sym e) ∙ unfold step_best in h) in
      let chain =
        λ (q : PathState F) (k : before q d.1 ≡ false). lt-StrictWeak.comparable _ _ _ k low in
      (
        chain c.1 f,
        λ q n k. elim n [
          | Memᴰ.head same ↦
              chain q (
                subst (λ x. before x d.1 ≡ false) (sym same)
                  (g (subst (λ x. good x ≡ true) same k)))
          | Memᴰ.tail m ↦ rest q m k
        ],
      )

  -- The best path is eligible, stands at its index, and no eligible path has a lower score.
  pub record Winner (paths : List (PathState F)) (b : ℕ) (p : PathState F) : Type 0 where
    pub place : get_elem? paths b ≡ some p
    pub is_good : good p ≡ true
    pub least : (q : PathState F) → Memᴰ q paths → good q ≡ true → before q p ≡ false

  first_least :
      (i : ℕ) (ps : List (PathState F)) (b : ℕ) (p : PathState F)
      → search_from i ps none ≡ some (b, p)
      → (q : PathState F) → Memᴰ q ps
      → good q ≡ true
      → before q p ≡ false
  unfolding best_path
  first_least i [] b p h q n g = absurd (nothing-Memᴰ n)
  first_least i (r ∷ ps) b p h q n g = elim (Bool-cases (good r)) [
    | inr e ↦ elim n [
      | Memᴰ.head same ↦ absurd (ground (arith, subst (λ x. good x ≡ true) same g))
      | Memᴰ.tail m ↦ first_least (suc i) ps b p (rw (e, best_path) at h) q m g
    ]
    | inl e ↦
        let (low, rest) = search-least (suc i) ps (i, r) b p (rw (e, best_path) at h) in
        elim n [
          | Memᴰ.head same ↦ subst (λ x. before x p ≡ false) (sym same) low
          | Memᴰ.tail m ↦ rest q m g
        ]
  ]

  pub best_path-Winner :
      (paths : List (PathState F)) (b : ℕ) (p : PathState F)
      → search_from 0 paths none ≡ some (b, p)
      → Winner paths b p
  best_path-Winner paths b p h = elim (search-Found 0 paths none b p h) [
    | kept e ↦ absurd (ground arith)
    | found n e f g ↦
        let same : n ≡ b = omega (arith, e) in
        record {
          place = subst (λ (k : ℕ). get_elem? paths k ≡ some p) same f;
          is_good = g;
          least = first_least 0 paths b p h;
        }
  ]

  search_some :
      (i : ℕ) (ps : List (PathState F)) (c : ℕ × PathState F)
      → (d : ℕ × PathState F) × (search_from i ps (some c) ≡ some d)
  unfolding best_path step_best
  search_some i [] c = (c, refl)
  search_some i (r ∷ ps) c =
      let (d, e, f, g) = least_kept i r c in
      let (x, k) = search_some (suc i) ps d in (x, ap (search_from (suc i) ps) e ∙ k)

  -- Where there is an eligible path, the loop finds one.
  pub best_path_total :
      (i : ℕ) (ps : List (PathState F)) (q : PathState F)
      → Memᴰ q ps
      → good q ≡ true
      → (d : ℕ × PathState F) × (search_from i ps none ≡ some d)
  unfolding best_path
  best_path_total i [] q n g = absurd (nothing-Memᴰ n)
  best_path_total i (r ∷ ps) q n g = elim (Bool-cases (good r)) [
    | inl e ↦ let (d, k) = search_some (suc i) ps (i, r) in (d, rw (e, best_path) k)
    | inr e ↦ elim n [
      | Memᴰ.head same ↦ absurd (ground (arith, subst (λ x. good x ≡ true) same g))
      | Memᴰ.tail m ↦ let (d, k) = best_path_total (suc i) ps q m g in (d, rw (e, best_path) k)
    ]
  ]
