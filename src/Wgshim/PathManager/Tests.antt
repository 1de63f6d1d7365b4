-- ===== src/Wgshim/PathManager/Tests.antt =====
-- Runs of the manager of internal/wgshim/path.go, and its theorems at concrete inputs.
use mathlib.Core.List.{Memᴰ}
use bpc.Base.{ℕ, ◌≡◌, true, [], ◌∷◌, codes, Option, some, inl, refl}
use bpc.Base.Int.{ℤ, pos}
use bpc.Base.InsertionSort.{insertion_sorter, number_float}
use bpc.Wgshim.PathManager.{PathPolicy, PathState, PathManager, new_path, new_path_manager, observe}
use bpc.Wgshim.PathManager.Select.{Answer, switched, select, migration_fallback}
use bpc.Wgshim.PathManager.Range.{IsValid}
use bpc.Wgshim.PathManager.Switch.{Switch, select_emergency}
use bpc.Wgshim.PathManager.Runs.{start, next, observes, Run-Safe}

abbrev no_policy : PathPolicy ℤ
no_policy = record {
  minimum_improvement = pos 0;
  minimum_stable_duration = pos 0;
  failure_penalty = pos 0;
  recovery_cooldown = pos 0;
  failure_threshold = pos 0;
}

abbrev fresh : PathManager ℕ
fresh = new_path_manager number_float (codes "a" ∷ codes "b" ∷ []) no_policy

-- The second path has answered.
abbrev second_up : PathManager ℕ
second_up = observe number_float insertion_sorter fresh (pos 1) (pos 2) (30000000 ∷ []) 5

abbrev first_path : PathState ℕ
first_path = new_path number_float (codes "a")

abbrev answered : PathState ℕ
answered = record (new_path number_float (codes "b")) { reachable = true; last_success = some 5 }

abbrev one_up : PathManager ℕ
one_up = record fresh { paths = first_path ∷ answered ∷ [] }

abbrev moved : PathManager ℕ
moved = record one_up { migrating_from = some 0; active = 1 }

Run-Safe_example :
    IsValid ℕ second_up
    × ((r : PathManager ℕ × Answer) × (select number_float second_up 9 ≡ some r))
    × ((o : Option ℕ) × (migration_fallback number_float second_up ≡ some o))
Run-Safe_example =
    Run-Safe number_float insertion_sorter (codes "a") (codes "b" ∷ []) no_policy second_up 9
      (next fresh second_up start (observes (pos 1) (pos 2) (30000000 ∷ []) 5))

-- A migration has been confirmed long ago, which leaves the time of its first packet.
abbrev confirmed : PathManager ℕ
confirmed = record one_up { migration_started = some 6 }

select_emergency_example :
    (m' : PathManager ℕ) × (i : ℕ) × (select number_float confirmed 9000000000
      ≡ some (m', switched i))
select_emergency_example =
    select_emergency number_float confirmed 9000000000 first_path answered
      (unfold new_path_manager in refl) (unfold new_path in refl)
      (inl (unfold new_path_manager in refl)) (Memᴰ.tail (Memᴰ.head refl)) refl
      (unfold new_path in refl)
