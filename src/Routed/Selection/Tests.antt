-- ===== src/Routed/Selection/Tests.antt =====
-- Runs of `choosePath` of internal/routed/router.go, and its theorems at concrete inputs.
use mathlib.Core.List.{Memᴰ}
use bpc.Base.{ℕ, true, [], ◌∷◌, Bytes, codes, bytes_eq, bytes_lt, none, some, ◌≡◌, refl}
use bpc.Base.Int.{pos}
use bpc.Base.Dict.{lookup, insert}
use bpc.Base.InsertionSort.{insertion_sorter, number_float}
use bpc.Routed.Config.{RoutePath}
use bpc.Routed.Selection.{
  MeshView, new_selection, viable_path, path_score, candidates_of, find_current, select,
  choose_path,
}
use bpc.Routed.Selection.Choice.{Choice, choose_path-Choice, choose_path_total}

abbrev path_over : Bytes → ℕ → RoutePath ℕ
path_over hop score = record {
  id = hop;
  owner_node_id = codes "n9";
  cidr = codes "192.168.88.0/24";
  hops = codes "n1" ∷ hop ∷ codes "n9" ∷ [];
  health = codes "healthy";
  rtt_ms = 3;
  loss_percent = 0;
  cost = 1;
  score = score;
  last_seen = pos 0;
}

abbrev slow : RoutePath ℕ
slow = path_over (codes "a") 50

abbrev fast : RoutePath ℕ
fast = path_over (codes "b") 20

abbrev all_up : MeshView ℕ
all_up = record { can_send = λ peer. true; link_status = λ peer. none }

chooses_fast :
    (choose_path number_float insertion_sorter all_up
      (codes "n1")
      new_selection
      (slow ∷ fast ∷ [])
      7).1
    ≡ some fast
unfolding choose_path select find_current candidates_of viable_path path_score bytes_eq bytes_lt
    lookup insert
chooses_fast = refl

choose_path-Choice_example :
    Choice number_float all_up (codes "n1") new_selection (slow ∷ fast ∷ []) 7 fast
choose_path-Choice_example =
    choose_path-Choice number_float insertion_sorter all_up (codes "n1") (slow ∷ fast ∷ [])
      new_selection 7 fast chooses_fast

choose_path_total_example :
    (q : RoutePath ℕ) × ((choose_path number_float insertion_sorter all_up
        (codes "n1")
        new_selection
        (slow ∷ fast ∷ [])
        7).1
      ≡ some q)
choose_path_total_example =
    choose_path_total number_float insertion_sorter all_up (codes "n1") (slow ∷ fast ∷ [])
      new_selection 7 slow 50 (Memᴰ.head refl) (unfold viable_path path_score bytes_eq in refl)
