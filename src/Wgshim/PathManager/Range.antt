-- ===== src/Wgshim/PathManager/Range.antt =====
-- The indexes of the manager of internal/wgshim/path.go stay in range, so that none of its accesses
-- panics, and the windows of samples stay bounded.
use mathlib.Core.Path.{subst}
use bpc.Base.{
  ℕ, ◌-◌, ◌≤◌, ◌<◌, ◌≡◌, ◌≢◌, Bool, not, ◌&&◌, List, [], ◌∷◌, ◌++◌, zero, suc, ltb, leb, ◌==◌,
  length, length-drop, take, get_elem?, set, length-set, All, All-set, All-get_elem?, Bytes,
  bytes_eq, Option, none, some, Bool-cases, Option-cases, inl, inr, refl, sym, arith,
}
use bpc.Base.Int.{ℤ, pos, negsuc}
use bpc.Base.Float.{Float}
use bpc.Base.Sort.{Sorter}
use bpc.Wgshim.PathManager.{
  PathPolicy, PathState, PathManager, is_set, round_samples, add_samples, count_round, miss_round,
  hear_round, observe_path, observe, index_of,
}
use bpc.Wgshim.PathManager.Select.{
  Answer, fall_back, keep_active, migrate, best_path, find_endpoint, confirm_traffic, mark_sent,
  select,
}
use bpc.Wgshim.PathManager.Best.{best_path-Winner}
use bpc.Wgshim.PathManager.Outcomes.{
  Decided, keeps, waits, nominates, moves, Selected, no_paths, reverts, decides, select-Selected,
}

-- An index of another path, or none.
abbrev pub Elsewhere : Option ℕ → ℕ → ℕ → Type 0
Elsewhere none active n = Unit
Elsewhere (some i) active n = (i < n) × (i ≢ active)

abbrev pub Sampled : {F : Type 0} → PathState F → Type 0
Sampled p = length p.samples ≤ 32

-- The active path is one of the paths; the candidate and the path that is being left are others.
pub record IsValid (F : Type 0) (m : PathManager F) : Type 0 where
  pub active_lt : m.active < length m.paths
  pub candidate_there : Elsewhere m.candidate m.active (length m.paths)
  pub previous_there : Elsewhere m.migrating_from m.active (length m.paths)
  pub sampled : All Sampled m.paths

add_samples-length :
    (samples : List Bool) (sent replies : ℕ) → length (add_samples samples sent replies) ≤ 32
unfolding add_samples
add_samples-length samples sent replies =
    let all = samples ++ round_samples sent replies in
    elim (Bool-cases (ltb 32 (length all))) [
      | inl e ↦ rw e (ground (arith, length-drop (length all - 32) all))
      | inr e ↦ rw e (ground arith)
    ]

get_elem?-some-lt :
    {A : Type 0} (xs : List A) (i : ℕ) (x : A) → get_elem? xs i ≡ some x → i < length xs
get_elem?-some-lt [] i x h = absurd (ground arith)
get_elem?-some-lt (y ∷ xs) zero x h = omega arith
get_elem?-some-lt (y ∷ xs) (suc i) x h = omega (arith, get_elem?-some-lt xs i x h)

module _ (float : Float) where
  open float use {F}

  -- One path is replaced.
  set-IsValid :
      (m : PathManager F) (i : ℕ) (p : PathState F)
      → Sampled p
      → IsValid F m
      → IsValid F (record m { paths = set m.paths i p })
  set-IsValid m i p few v =
      let same = length-set m.paths i p in
      record {
        active_lt = omega (arith, same, v.active_lt);
        candidate_there = subst (Elsewhere m.candidate m.active) (sym same) v.candidate_there;
        previous_there = subst (Elsewhere m.migrating_from m.active) (sym same) v.previous_there;
        sampled = All-set Sampled m.paths i p v.sampled few;
      }

  miss_round-samples :
      (p : PathState F) (threshold now : ℕ) → (miss_round float p threshold now).samples ≡ p.samples
  unfolding miss_round
  miss_round-samples p threshold now =
      elim (Bool-cases (leb threshold (suc p.consecutive_failures))) [
        | inl e ↦ rw e refl
        | inr e ↦ rw e refl
      ]

  observe_path-Sampled :
      (sorter : Sorter) (p : PathState F) (policy : PathPolicy ℕ) (sent : ℕ) (replies : List ℕ)
      (now : ℕ)
      → Sampled (observe_path float sorter p policy sent replies now)
  unfolding observe_path count_round hear_round
  observe_path-Sampled sorter p policy sent replies now =
      let few = add_samples-length p.samples sent (length (take sent replies)) in
      elim (Bool-cases (length (take sent replies) == 0)) [
        | inl e ↦ rw e (
            rw
              (miss_round-samples (count_round float p sent (take sent replies))
                policy.failure_threshold now)
              few)
        | inr e ↦ rw e few
      ]

  pub observe-IsValid :
      (sorter : Sorter) (m : PathManager F) (index sent : ℤ) (replies : List ℕ) (now : ℕ)
      → IsValid F m
      → IsValid F (observe float sorter m index sent replies now)
  unfolding observe
  observe-IsValid sorter m index (negsuc n) replies now v = v
  observe-IsValid sorter m index (pos zero) replies now v = v
  observe-IsValid sorter m index (pos (suc n)) replies now v =
      elim (Option-cases (index_of index)) [
        | inl e ↦ rw (e, observe) v
        | inr (i, e) ↦ elim (Option-cases (get_elem? m.paths i)) [
          | inl f ↦ rw (e, f, observe) v
          | inr (p, f) ↦
              rw (e, f, observe)
                (set-IsValid m i (observe_path float sorter p m.policy (suc n) replies now)
                  (observe_path-Sampled sorter p m.policy (suc n) replies now) v)
        ]
      ]

  -- Another candidate, or none.
  candidate-IsValid :
      (m : PathManager F) (c since : Option ℕ)
      → Elsewhere c m.active (length m.paths)
      → IsValid F m
      → IsValid F (record m { candidate = c; candidate_since = since })
  candidate-IsValid m c since h v = record {
    active_lt = v.active_lt;
    candidate_there = h;
    previous_there = v.previous_there;
    sampled = v.sampled;
  }

  Decided-IsValid :
      (m : PathManager F) (current : PathState F) (now : ℕ) (r : PathManager F × Answer)
      → IsValid F m
      → Decided float m current
          (best_path float m.policy current.reachable now 0 m.paths none)
          now
          r
      → IsValid F r.0
  unfolding keep_active migrate
  Decided-IsValid m current now r v keeps = candidate-IsValid m none m.candidate_since tt v
  Decided-IsValid m current now r v waits = v
  Decided-IsValid m current now r v (nominates b p e other) =
      let best = best_path-Winner float m.policy current.reachable now m.paths b p e in
      candidate-IsValid m (some b) (some now) (get_elem?-some-lt m.paths b p best.place, other) v
  Decided-IsValid m current now r v (moves b p e other why) =
      let best = best_path-Winner float m.policy current.reachable now m.paths b p e in
      record {
        active_lt = get_elem?-some-lt m.paths b p best.place;
        candidate_there = tt;
        previous_there = (v.active_lt, λ h. other (sym h));
        sampled = v.sampled;
      }

  fall_back-IsValid :
      (m : PathManager F) (from : ℕ) (current : PathState F) (now : ℕ)
      → IsValid F m
      → m.migrating_from ≡ some from
      → get_elem? m.paths m.active ≡ some current
      → IsValid F (fall_back float m from current now).0
  unfolding fall_back
  fall_back-IsValid m from current now v e here =
      let there =
        subst (λ (o : Option ℕ). Elsewhere o m.active (length m.paths)) e v.previous_there in
      let few = All-get_elem? Sampled m.paths m.active current v.sampled here in
      record {
        active_lt = subst (λ (n : ℕ). from < n) (sym (length-set m.paths m.active _)) there.0;
        candidate_there = tt;
        previous_there = tt;
        sampled = All-set Sampled m.paths m.active _ v.sampled few;
      }

  Selected-IsValid :
      (m : PathManager F) (now : ℕ) (r : PathManager F × Answer)
      → IsValid F m
      → Selected float m now r
      → IsValid F r.0
  Selected-IsValid m now r v (no_paths e) = v
  Selected-IsValid m now r v (reverts from current q here e late there up) =
      fall_back-IsValid m from current now v e here
  Selected-IsValid m now r v (decides current s here d) = Decided-IsValid m current now r v d

  pub select-IsValid :
      (m : PathManager F) (now : ℕ) (r : PathManager F × Answer)
      → IsValid F m
      → select float m now ≡ some r
      → IsValid F r.0
  select-IsValid m now r v h = Selected-IsValid m now r v (select-Selected float m now r h)

  find_endpoint-Sampled :
      (endpoint : Bytes) (i : ℕ) (ps : List (PathState F)) (j : ℕ) (p : PathState F)
      → All Sampled ps
      → find_endpoint float endpoint i ps ≡ some (j, p)
      → Sampled p
  unfolding find_endpoint
  find_endpoint-Sampled endpoint i [] j p h e = absurd (ground arith)
  find_endpoint-Sampled endpoint i (q ∷ ps) j p h e =
      elim (Bool-cases (bytes_eq q.endpoint endpoint)) [
        | inl f ↦ let same : q ≡ p = ground arith in subst Sampled same h.0
        | inr f ↦ find_endpoint-Sampled endpoint (suc i) ps j p h.1 (rw f at e)
      ]

  pub confirm_traffic-IsValid :
      (m : PathManager F) (endpoint : Bytes) (now : ℕ)
      → IsValid F m
      → IsValid F (confirm_traffic float m endpoint now)
  unfolding confirm_traffic
  confirm_traffic-IsValid m endpoint now v =
      elim (Option-cases (find_endpoint float endpoint 0 m.paths)) [
        | inl e ↦ rw (e, confirm_traffic) v
        | inr ((i, p), e) ↦
            let few = find_endpoint-Sampled endpoint 0 m.paths i p v.sampled e in
            let w = set-IsValid m i (record p { last_traffic = some now }) few v in
            rw (e, confirm_traffic)
              record {
                active_lt = w.active_lt;
                candidate_there = w.candidate_there;
                previous_there = elim (Bool-cases (i == m.active)) [
                  | inl f ↦ rw f tt
                  | inr f ↦ rw f w.previous_there
                ];
                sampled = w.sampled;
              }
      ]

  pub mark_sent-IsValid :
      (m : PathManager F) (index now : ℕ) → IsValid F m → IsValid F (mark_sent float m index now)
  unfolding mark_sent
  mark_sent-IsValid m index now v =
      elim (Bool-cases
        (index == m.active && (is_set m.migrating_from && not (is_set m.migration_started)))) [
          | inl e ↦
              rw (e, mark_sent)
                record {
                  active_lt = v.active_lt;
                  candidate_there = v.candidate_there;
                  previous_there = v.previous_there;
                  sampled = v.sampled;
                }
          | inr e ↦ rw (e, mark_sent) v
        ]
