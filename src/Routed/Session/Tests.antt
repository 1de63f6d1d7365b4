-- ===== src/Routed/Session/Tests.antt =====
-- Runs of internal/routed/session.go, and its theorems at concrete inputs.
use bpc.Base.{
  ℕ, zero, suc, Bool, true, false, List, [], ◌∷◌, ◌++◌, Bytes, bytes_eq, be, put_be, Option, none,
  some, Result, ok, err, ◌≡◌, ◌≢◌, ◌⊎◌, inl, inr, refl, arith,
}
use bpc.Routed.Window.{new_window, accept_sequence_locked}
use bpc.Routed.Session.{Peer, names_session, data_envelope, accept_data_envelope}
use bpc.Routed.Session.Envelope.{accept-data_envelope, stale_envelope_dropped}
use bpc.Routed.Session.Once.{deliver, deliver_once}

abbrev epoch_of : ℕ → Bytes
epoch_of n = n ∷ 0 ∷ 0 ∷ 0 ∷ 0 ∷ 0 ∷ 0 ∷ 0 ∷ 0 ∷ 0 ∷ 0 ∷ 0 ∷ 0 ∷ 0 ∷ 0 ∷ 0 ∷ []

abbrev sender : Peer
sender = record {
  send_seq = 4;
  window = new_window;
  local_epoch = epoch_of 1;
  remote_epoch = epoch_of 2;
}

abbrev receiver : Peer
receiver = record {
  send_seq = 0;
  window = new_window;
  local_epoch = epoch_of 2;
  remote_epoch = epoch_of 1;
}

-- The same Node after the sender's restart.
abbrev restarted : Peer
restarted = record receiver { remote_epoch = epoch_of 3 }

abbrev sent_raw : Bytes
sent_raw = epoch_of 1 ++ (epoch_of 2 ++ (0 ∷ 0 ∷ 0 ∷ 0 ∷ 0 ∷ 0 ∷ 0 ∷ 5 ∷ 42 ∷ []))

sends : data_envelope sender (42 ∷ []) ≡ (record sender { send_seq = 5 }, ok sent_raw)
unfolding data_envelope bytes_eq put_be
sends = refl

accept-data_envelope_example : accept_data_envelope receiver sent_raw ≡ (
  record receiver { window = (accept_sequence_locked new_window 5).0 },
  (let taken = (accept_sequence_locked new_window 5).1 in
      bpc.Base.if◌then◌else◌ taken (some (42 ∷ [])) none),
)
accept-data_envelope_example =
    accept-data_envelope sender receiver (42 ∷ []) sent_raw (record sender { send_seq = 5 })
      (record {
        forth = refl;
        back = refl;
        local_size = refl;
        remote_size = refl;
        proved = λ e. cc;
      })
      (omega arith) sends

stale_envelope_dropped_example : accept_data_envelope restarted sent_raw ≡ (restarted, none)
stale_envelope_dropped_example =
    stale_envelope_dropped sender restarted (42 ∷ []) sent_raw (record sender { send_seq = 5 }) refl
      refl (inl (λ e. cc)) sends

deliver_once_example :
    (accept_data_envelope
      (deliver (accept_data_envelope (deliver receiver []) sent_raw).0 (sent_raw ∷ []))
      sent_raw).1
    ≡ none
deliver_once_example =
    deliver_once receiver [] (sent_raw ∷ []) sent_raw (42 ∷ []) refl
      (unfold accept_data_envelope names_session deliver accept_sequence_locked bytes_eq be in refl)
