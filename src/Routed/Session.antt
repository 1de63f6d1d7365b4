-- ===== src/Routed/Session.antt =====
-- internal/routed/session.go: data envelopes bound to both process incarnations, with the session
-- fields of `meshPeer` in internal/routed/mesh.go.
pub mod Envelope
pub mod Once
mod Tests
use bpc.Base.{
  ℕ, zero, suc, ◌+◌, ◌%◌, ◌^◌, Bool, true, false, not, ◌||◌, List, [], ◌∷◌, ◌++◌, leb, ◌==◌,
  if◌then◌else◌, length, take, drop, Bytes, bytes_eq, be, put_be, Option, none, some, Result, ok,
  err,
}
use bpc.Routed.Window.{Window, accept_sequence_locked}

-- The epochs are arrays of 16 bytes; the zero array stands for "no remote epoch yet".
abbrev pub no_epoch : Bytes
no_epoch = 0 ∷ 0 ∷ 0 ∷ 0 ∷ 0 ∷ 0 ∷ 0 ∷ 0 ∷ 0 ∷ 0 ∷ 0 ∷ 0 ∷ 0 ∷ 0 ∷ 0 ∷ 0 ∷ []

pub record Peer : Type 0 where
  pub send_seq : ℕ
  pub window : Window
  pub local_epoch : Bytes
  pub remote_epoch : Bytes

pub data SessionError : Type 0 where
  not_authenticated sequence_exhausted : SessionError

pub session_ready : Peer → Bool
session_ready p = not (bytes_eq p.remote_epoch no_epoch)

pub matches_remote_epoch : Peer → Bytes → Bool
matches_remote_epoch p epoch = bytes_eq p.remote_epoch epoch

-- A new remote epoch empties the replay window.
pub confirm_remote_epoch : Peer → Bytes → Peer
confirm_remote_epoch p epoch =
    if not (length epoch == 16)
    then p
    else if bytes_eq p.remote_epoch epoch
    then p
    else record p { remote_epoch = epoch; window = record { recv_high = 0; recv_mask = 0 } }

-- `sendSeq.Add(1)`, a uint64 that wraps.
next_sequence : Peer → Peer × ℕ
next_sequence p =
    let sequence = (p.send_seq + 1) % 2 ^ 64 in (record p { send_seq = sequence }, sequence)

pub data_envelope : Peer → Bytes → Peer × Result SessionError Bytes
unfolding next_sequence
data_envelope p payload =
    let (p', sequence) = next_sequence p in
    if bytes_eq p.remote_epoch no_epoch
    then (p, err not_authenticated)
    else if sequence == 0
    then (p', err sequence_exhausted)
    else (p', ok (p.local_epoch ++ (p.remote_epoch ++ (put_be 8 sequence ++ payload))))

-- Whether the envelope names this session: `raw[:16]` is the remote epoch, `raw[16:32]` the local one.
pub names_session : Peer → Bytes → Bool
names_session p raw = not (
    bytes_eq p.remote_epoch no_epoch
    || (not (bytes_eq (take 16 raw) p.remote_epoch)
        || not (bytes_eq (take 16 (drop 16 raw)) p.local_epoch)))

pub accept_data_envelope : Peer → Bytes → Peer × Option Bytes
accept_data_envelope p raw =
    let (window, accepted) = accept_sequence_locked p.window (be (take 8 (drop 32 raw))) in
    if leb (length raw) 40
    then (p, none)
    else if not (names_session p raw)
    then (p, none)
    else (record p { window = window }, if accepted then some (drop 40 raw) else none)
