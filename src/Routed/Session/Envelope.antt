-- ===== src/Routed/Session/Envelope.antt =====
-- What internal/routed/session.go promises of an envelope between two peers.
use bpc.Base.{
  ℕ, ◌+◌, ◌^◌, ◌<◌, true, false, ◌++◌, if◌then◌else◌, length, take, drop, Bytes, be, put_be, none,
  some, ok, ◌≡◌, ◌≢◌, sym, ◌∙◌, ap, arith, take_prefix, drop_prefix, drop-drop, ◌⊎◌, ◌↔◌, be-put_be,
  length-put_be, length-append, bytes_eq_iff,
}
use bpc.Routed.Window.{accept_sequence_locked}
use bpc.Routed.Session.{Peer, no_epoch, data_envelope, names_session, accept_data_envelope}

-- The two ends of one session: each holds the other's epoch, and epochs have 16 bytes.
pub record InSession (p q : Peer) : Type 0 where
  pub forth : q.remote_epoch ≡ p.local_epoch
  pub back : q.local_epoch ≡ p.remote_epoch
  pub local_size : length p.local_epoch ≡ 16
  pub remote_size : length p.remote_epoch ≡ 16
  pub proved : q.remote_epoch ≢ no_epoch

-- An envelope taken apart.
record Parts (p : Peer) (sequence : ℕ) (payload raw : Bytes) : Type 0 where
  sender : take 16 raw ≡ p.local_epoch
  receiver : take 16 (drop 16 raw) ≡ p.remote_epoch
  number : take 8 (drop 32 raw) ≡ put_be 8 sequence
  content : drop 40 raw ≡ payload
  size : length raw ≡ length payload + 40

envelope-Parts :
    (p : Peer) (sequence : ℕ) (payload : Bytes)
    → length p.local_epoch ≡ 16
    → length p.remote_epoch ≡ 16
    → Parts p sequence payload (p.local_epoch ++ (p.remote_epoch ++ (put_be 8 sequence ++ payload)))
envelope-Parts p sequence payload hl hr =
    let number = put_be 8 sequence in
    let tail = p.remote_epoch ++ (number ++ payload) in
    let raw = p.local_epoch ++ tail in
    let eight = length-put_be 8 sequence in
    let at_16 = drop_prefix 16 p.local_epoch tail hl in
    let at_32 : drop 32 raw ≡ number ++ payload =
      drop-drop 16 16 raw 32 (omega arith)
      ∙ rw (at_16, drop_prefix 16 p.remote_epoch (number ++ payload) hr) in
    record {
      sender = take_prefix 16 p.local_epoch tail hl;
      receiver = rw at_16 (take_prefix 16 p.remote_epoch (number ++ payload) hr);
      number = rw at_32 (take_prefix 8 number payload eight);
      content = drop-drop 32 8 raw 40 (omega arith) ∙ rw at_32 (drop_prefix 8 number payload eight);
      size = omega (
        arith,
        hl,
        hr,
        eight,
        length-append p.local_epoch tail,
        length-append p.remote_epoch (number ++ payload),
        length-append number payload,
      );
    }

-- What a successful `data_envelope` has written.
sent :
    (p : Peer) (payload raw : Bytes) (p' : Peer)
    → data_envelope p payload ≡ (p', ok raw)
    → (raw ≡ p.local_epoch ++ (p.remote_epoch ++ (put_be 8 p'.send_seq ++ payload)))
      × (p'.send_seq < 2 ^ 64)
unfolding data_envelope
sent p payload raw p' h = ground arith

sent-Parts :
    (p : Peer) (payload raw : Bytes) (p' : Peer)
    → length p.local_epoch ≡ 16
    → length p.remote_epoch ≡ 16
    → data_envelope p payload ≡ (p', ok raw)
    → Parts p p'.send_seq payload raw
sent-Parts p payload raw p' hl hr h =
    rw (sent p payload raw p' h).0 (envelope-Parts p p'.send_seq payload hl hr)

names_session_iff :
    (p : Peer) (raw : Bytes)
    → (names_session p raw ≡ true) ↔ (
        (p.remote_epoch ≢ no_epoch)
        × (take 16 raw ≡ p.remote_epoch)
        × (take 16 (drop 16 raw) ≡ p.local_epoch))
unfolding names_session
names_session_iff p raw =
    let proved = bytes_eq_iff p.remote_epoch no_epoch in
    let sender = bytes_eq_iff (take 16 raw) p.remote_epoch in
    let receiver = bytes_eq_iff (take 16 (drop 16 raw)) p.local_epoch in ground arith

-- An envelope with a payload that one end of a session sends is opened by the other end: the number
-- goes to the replay window, and if that takes it the payload comes out as it went in.
pub accept-data_envelope :
    (p q : Peer) (payload raw : Bytes) (p' : Peer)
    → InSession p q
    → 0 < length payload
    → data_envelope p payload ≡ (p', ok raw)
    → let (window, accepted) = accept_sequence_locked q.window p'.send_seq in
      accept_data_envelope q raw
      ≡ (record q { window = window }, if accepted then some payload else none)
unfolding accept_data_envelope
accept-data_envelope p q payload raw p' s full h =
    let parts = sent-Parts p payload raw p' s.local_size s.remote_size h in
    let number : be (take 8 (drop 32 raw)) ≡ p'.send_seq =
      ap be parts.number ∙ be-put_be 8 p'.send_seq (omega (arith, (sent p payload raw p' h).1)) in
    let named : names_session q raw ≡ true =
      (names_session_iff q raw).1
        (s.proved, parts.sender ∙ sym s.forth, parts.receiver ∙ sym s.back) in
    rw (named, number, parts.content) (ground (arith, parts.size))

-- An envelope for another session, whose sender's or receiver's epoch is no longer the one that the
-- receiver goes by, is dropped, and the receiver's state stays as it was.
pub stale_envelope_dropped :
    (p q : Peer) (payload raw : Bytes) (p' : Peer)
    → length p.local_epoch ≡ 16
    → length p.remote_epoch ≡ 16
    → (q.remote_epoch ≢ p.local_epoch) ⊎ (q.local_epoch ≢ p.remote_epoch)
    → data_envelope p payload ≡ (p', ok raw)
    → accept_data_envelope q raw ≡ (q, none)
unfolding accept_data_envelope
stale_envelope_dropped p q payload raw p' hl hr other h =
    let parts = sent-Parts p payload raw p' hl hr h in
    let unnamed : names_session q raw ≡ false =
      ground (arith, names_session_iff q raw, parts.sender, parts.receiver) in
    rw unnamed (ground arith)
