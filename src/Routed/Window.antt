-- ===== src/Routed/Window.antt =====
-- internal/routed/mesh.go: the replay window of a mesh peer, `recvHigh` and the 64-bit `recvMask`.
pub mod History
mod Tests
use bpc.Base.{ℕ, ◌-◌, Bool, true, false, List, [], ◌∷◌, ltb, leb, ◌==◌, if◌then◌else◌}
use bpc.Base.Bits.{test_bit, set_bit, shl}

-- The fields `recvHigh` and `recvMask` of `meshPeer`, both uint64.
pub record Window : Type 0 where
  pub recv_high : ℕ
  pub recv_mask : ℕ

-- A peer starts with both fields zero.
abbrev pub new_window : Window
new_window = record { recv_high = 0; recv_mask = 0 }

-- The branch `sequence > recvHigh`.
advance : Window → ℕ → Window
advance w sequence =
    let shift = sequence - w.recv_high in
    record {
      recv_high = sequence;
      recv_mask = if leb 64 shift then 1 else set_bit (shl 64 w.recv_mask shift) 0;
    }

-- The branch `sequence <= recvHigh`.
look_back : Window → ℕ → Window × Bool
look_back w sequence =
    let delta = w.recv_high - sequence in
    if leb 64 delta
    then (w, false)
    else if test_bit w.recv_mask delta
    then (w, false)
    else (record w { recv_mask = set_bit w.recv_mask delta }, true)

unfoldable pub accept_sequence_locked : Window → ℕ → Window × Bool
unfolding advance look_back
accept_sequence_locked w sequence =
    if sequence == 0
    then (w, false)
    else if w.recv_high == 0
    then (record { recv_high = sequence; recv_mask = 1 }, true)
    else if ltb w.recv_high sequence
    then (advance w sequence, true)
    else look_back w sequence

-- The window behind a list of arrivals, and the answers that it gave.
unfoldable pub after : Window → List ℕ → Window
after w [] = w
after w (s ∷ ss) = after (accept_sequence_locked w s).0 ss

pub answers : Window → List ℕ → List Bool
answers w [] = []
answers w (s ∷ ss) = (accept_sequence_locked w s).1 ∷ answers (accept_sequence_locked w s).0 ss
