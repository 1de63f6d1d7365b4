-- ===== src/Routed/Window/Tests.antt =====
-- Runs of the replay window of internal/routed/mesh.go, and its theorems at concrete inputs.
use bpc.Base.{ℕ, true, false, List, [], ◌∷◌, ◌≡◌, refl}
use bpc.Base.Bits.{test_bit, set_bit, shl}
use bpc.Routed.Window.{new_window, accept_sequence_locked, after, answers}
use bpc.Routed.Window.History.{fresh_answers, window-history, replay_refused}

abbrev arrivals : List ℕ
arrivals = 5 ∷ 3 ∷ 5 ∷ 70 ∷ 6 ∷ 7 ∷ 3 ∷ 0 ∷ 7 ∷ []

arrivals_answered :
    answers new_window arrivals
    ≡ true ∷ true ∷ false ∷ true ∷ false ∷ true ∷ false ∷ false ∷ false ∷ []
unfolding answers accept_sequence_locked test_bit set_bit shl
arrivals_answered = refl

window-history_example : answers new_window arrivals ≡ fresh_answers [] arrivals
window-history_example = window-history arrivals

replay_refused_example :
    (accept_sequence_locked
      (after (accept_sequence_locked (after new_window (5 ∷ 3 ∷ [])) 70).0 (7 ∷ []))
      70).1
    ≡ false
replay_refused_example =
    replay_refused (5 ∷ 3 ∷ []) (7 ∷ []) 70
      (unfold accept_sequence_locked after test_bit set_bit shl in refl)
