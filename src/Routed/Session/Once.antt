-- ===== src/Routed/Session/Once.antt =====
-- At-most-once delivery of the data envelopes of internal/routed/session.go.
use bpc.Base.{
  ℕ, true, false, not, List, [], ◌∷◌, ◌++◌, leb, if◌then◌else◌, length, take, drop, Bytes, be, none,
  some, ◌≡◌, refl, sym, ◌∙◌, ap, arith,
}
use bpc.Routed.Window.{Window, new_window, accept_sequence_locked, after}
use bpc.Routed.Window.History.{replay_refused}
use bpc.Routed.Session.{Peer, names_session, accept_data_envelope}

-- The receiver behind a list of arrivals.
unfoldable pub deliver : Peer → List Bytes → Peer
deliver p [] = p
deliver p (raw ∷ raws) = deliver (accept_data_envelope p raw).0 raws

abbrev number_of : Bytes → ℕ
number_of raw = be (take 8 (drop 32 raw))

-- An arrival hands the window no number, or its own.
numbers_of : Peer → Bytes → List ℕ
numbers_of p raw =
    if leb (length raw) 40 then [] else if not (names_session p raw) then [] else number_of raw ∷ []

after-append : (w : Window) (ss ts : List ℕ) → after w (ss ++ ts) ≡ after (after w ss) ts
unfolding after
after-append w [] ts = refl
after-append w (s ∷ ss) ts = after-append (accept_sequence_locked w s).0 ss ts

accept-window :
    (p : Peer) (raw : Bytes)
    → (accept_data_envelope p raw).0.window ≡ after p.window (numbers_of p raw)
unfolding accept_data_envelope numbers_of after
accept-window p raw = ground arith

deliver-window :
    (p : Peer) (raws : List Bytes) → (ss : List ℕ) × ((deliver p raws).window ≡ after p.window ss)
unfolding deliver
deliver-window p [] = ([], unfold after in refl)
deliver-window p (raw ∷ raws) =
    let (ss, e) = deliver-window (accept_data_envelope p raw).0 raws in
    (
      numbers_of p raw ++ ss,
      e ∙ rw (accept-window p raw) (sym (after-append p.window (numbers_of p raw) ss)),
    )

record Taken (p : Peer) (raw : Bytes) : Type 0 where
  window_took : (accept_sequence_locked p.window (number_of raw)).1 ≡ true
  window_after :
      (accept_data_envelope p raw).0.window ≡ (accept_sequence_locked p.window (number_of raw)).0

accept-Taken :
    (p : Peer) (raw payload : Bytes) → (accept_data_envelope p raw).1 ≡ some payload → Taken p raw
unfolding accept_data_envelope
accept-Taken p raw payload h = ground arith

accept_refused :
    (p : Peer) (raw : Bytes)
    → (accept_sequence_locked p.window (number_of raw)).1 ≡ false
    → (accept_data_envelope p raw).1 ≡ none
unfolding accept_data_envelope
accept_refused p raw h = ground arith

-- From an empty window on, an envelope that was accepted once is never accepted again, whatever
-- arrives before, between and after, as long as no new remote epoch is confirmed.
pub deliver_once :
    (p : Peer) (before between : List Bytes) (raw payload : Bytes)
    → p.window ≡ new_window
    → (accept_data_envelope (deliver p before) raw).1 ≡ some payload
    → (accept_data_envelope (deliver (accept_data_envelope (deliver p before) raw).0 between) raw).1
      ≡ none
deliver_once p before between raw payload fresh h =
    let q = deliver p before in
    let (ss, e) = deliver-window p before in
    let start : q.window ≡ after new_window ss = e ∙ ap (λ (w : Window). after w ss) fresh in
    let t = accept-Taken q raw payload h in
    let (ts, e') = deliver-window (accept_data_envelope q raw).0 between in
    let n = number_of raw in
    let later : (deliver (accept_data_envelope q raw).0 between).window
        ≡ after (accept_sequence_locked (after new_window ss) n).0 ts =
      e'
      ∙ ap (λ (w : Window). after w ts)
          (t.window_after ∙ ap (λ (w : Window). (accept_sequence_locked w n).0) start) in
    accept_refused (deliver (accept_data_envelope q raw).0 between) raw
      (rw later (replay_refused ss ts n (rw start at t.window_took)))
