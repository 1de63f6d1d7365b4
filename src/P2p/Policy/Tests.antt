-- ===== src/P2p/Policy/Tests.antt =====
-- Runs of the policy of internal/p2p/policy.go, and its theorems at concrete inputs.
use mathlib.Core.List.{Memᴰ}
use bpc.Base.{ℕ, ◌≤◌, true, false, List, [], ◌∷◌, length, Bytes, be, some, none, ◌≡◌, refl, arith}
use bpc.Base.Int.{pos}
use bpc.P2p.Policy.{
  Policy, Flow, Session, host, max_flows, active, classify, sender_of, allowed, denied, established,
  flow_until, flow_eq, prune, live_flows, address_of, other_side, service_port, put_flow, drop_flow,
  extend,
}
use bpc.P2p.Policy.Answers.{Arrival, after, opened, host_answers}
use bpc.P2p.Policy.Bound.{flows_bounded}
use bpc.P2p.Policy.Scope.{InScope, allowed-InScope}

abbrev session : Session
session = record {
  issued_at = pos 1;
  expires_at = pos 60;
  initiator_address = 0x0a420002;
  host_address = 0x0a420003;
  deadline = 60000000000;
  managed = false;
  authorization = none;
}

abbrev policy : Policy
policy = record { session = session; side = host; revoked = false; flows = []; next_prune = none }

-- UDP from port 5000 of the initiator to port 47998 of the host, and the answer.
abbrev question : Bytes
question =
    0x45 ∷ 0 ∷ 0 ∷ 28 ∷ 0 ∷ 0 ∷ 0x40 ∷ 0 ∷ 64 ∷ 17 ∷ 0 ∷ 0 ∷ 10 ∷ 66 ∷ 0 ∷ 2 ∷ 10 ∷ 66 ∷ 0 ∷ 3
    ∷ 0x13 ∷ 0x88 ∷ 0xbb ∷ 0x7e ∷ 0 ∷ 8 ∷ 0 ∷ 0 ∷ []

abbrev answer : Bytes
answer =
    0x45 ∷ 0 ∷ 0 ∷ 28 ∷ 0 ∷ 0 ∷ 0x40 ∷ 0 ∷ 64 ∷ 17 ∷ 0 ∷ 0 ∷ 10 ∷ 66 ∷ 0 ∷ 3 ∷ 10 ∷ 66 ∷ 0 ∷ 2
    ∷ 0xbb ∷ 0x7e ∷ 0x13 ∷ 0x88 ∷ 0 ∷ 8 ∷ 0 ∷ 0 ∷ []

abbrev asked : List Arrival
asked = record { packet = question; outbound = false; now = 2000000000 } ∷ []

unasked_is_denied : (allowed policy answer true 3000000000).1 ≡ false
unfolding allowed active classify sender_of denied established flow_until prune live_flows
    address_of other_side service_port be
unasked_is_denied = refl

answer_passes : (allowed (after policy asked) answer true 3000000000).1 ≡ true
unfolding after allowed active classify sender_of denied established flow_until flow_eq prune
    live_flows address_of other_side service_port put_flow drop_flow extend be
answer_passes = refl

host_answers_example :
    (key : Flow) × (flags : ℕ) × (classify (after policy asked) answer true ≡ some (key, flags))
    × Memᴰ key (opened policy [] asked)
    × ((after policy asked).revoked ≡ false)
    × (active (after policy asked).session 3000000000 ≡ true)
host_answers_example =
    host_answers policy asked answer true 3000000000 refl
      (unfold after allowed active classify sender_of denied established flow_until prune live_flows
          address_of other_side service_port put_flow drop_flow extend be in
        refl)
      answer_passes

flows_bounded_example : length (after policy asked).flows ≤ max_flows
flows_bounded_example = flows_bounded policy asked (omega arith)

allowed-InScope_example :
    InScope (after policy asked) answer true
    × ((after policy asked).revoked ≡ false)
    × (active (after policy asked).session 3000000000 ≡ true)
allowed-InScope_example = allowed-InScope (after policy asked) answer true 3000000000 answer_passes
