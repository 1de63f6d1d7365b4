-- ===== src/P2p/Policy/Bound.antt =====
-- The size of the table of flows of internal/p2p/policy.go.
use bpc.Base.{
  ℕ, suc, ◌+◌, ◌≤◌, ◌<◌, Bool, false, List, [], ◌∷◌, length, Bytes, some, Option-cases, Bool-cases,
  inl, inr, ◌≡◌, ◌⊎◌, refl, ap, arith,
}
use bpc.P2p.Policy.{
  Policy, Flow, Flows, Side, initiator, host, max_flows, flow_eq, flow_until, put_flow, drop_flow,
  live_flows, prune, live, established, denied, extend, sender_of, allowed,
}
use bpc.P2p.Policy.History.{Verdict, closed, malformed, refused, passed, verdict}
use bpc.P2p.Policy.Answers.{Arrival, after}

length-put_flow : (f : Flow) (until : ℕ) (m : Flows) → length (put_flow f until m) ≤ suc (length m)
unfolding put_flow
length-put_flow f until [] = omega arith
length-put_flow f until ((g, u) ∷ m) = ground (arith, length-put_flow f until m)

put_flow_known :
    (f : Flow) (until u : ℕ) (m : Flows)
    → flow_until f m ≡ some u
    → length (put_flow f until m) ≡ length m
unfolding put_flow flow_until
put_flow_known f until u [] h = absurd (ground arith)
put_flow_known f until u ((g, v) ∷ m) h = elim (Bool-cases (flow_eq g f)) [
  | inl e ↦ rw e refl
  | inr e ↦ rw e (ap suc (put_flow_known f until u m (rw e at h)))
]

length-drop_flow : (f : Flow) (m : Flows) → length (drop_flow f m) ≤ length m
unfolding drop_flow
length-drop_flow f [] = omega arith
length-drop_flow f ((g, u) ∷ m) = ground (arith, length-drop_flow f m)

length-live_flows : (now : ℕ) (m : Flows) → length (live_flows now m) ≤ length m
unfolding live_flows
length-live_flows now [] = omega arith
length-live_flows now ((g, u) ∷ m) = ground (arith, length-live_flows now m)

length-prune : (p : Policy) (now : ℕ) → length (prune p now).flows ≤ length p.flows
unfolding prune
length-prune p now = ground (arith, length-live_flows now p.flows)

-- A packet that is let through has a live flow, or there is room for one more.
room :
    (p : Policy) (s : Side) (key : Flow) (flags now : ℕ)
    → denied p s key flags now ≡ false
    → ((u : ℕ) × (flow_until key p.flows ≡ some u)) ⊎ (length p.flows < max_flows)
unfolding denied established live
room p host key flags now d = elim (Option-cases (flow_until key p.flows)) [
  | inl e ↦ absurd (ground arith)
  | inr u ↦ inl u
]
room p initiator key flags now d = elim (Option-cases (flow_until key p.flows)) [
  | inl e ↦ inr (ground arith)
  | inr u ↦ inl u
]

length-extend :
    (p : Policy) (s : Side) (key : Flow) (flags now : ℕ)
    → length p.flows ≤ max_flows
    → denied p s key flags now ≡ false
    → length (extend p key flags now).flows ≤ max_flows
unfolding extend
length-extend p s key flags now small d =
    let flows = put_flow key (now + 30000000000) p.flows in
    let fits : length flows ≤ max_flows = elim (room p s key flags now d) [
      | inl (u, e) ↦ rw (put_flow_known key (now + 30000000000) u p.flows e) small
      | inr more ↦ omega (arith, length-put_flow key (now + 30000000000) p.flows)
    ] in
    ground (arith, length-drop_flow key flows)

Verdict-length :
    (p : Policy) (packet : Bytes) (outbound : Bool) (now : ℕ) (r : Policy × Bool)
    → length p.flows ≤ max_flows
    → Verdict p packet outbound now r
    → length r.0.flows ≤ max_flows
Verdict-length p packet outbound now r small (closed c) = omega arith
Verdict-length p packet outbound now r small (malformed e) = small
Verdict-length p packet outbound now r small (refused key flags e d) =
    omega (arith, length-prune p now)
Verdict-length p packet outbound now r small (passed key flags alive leased e d) =
    length-extend (prune p now) (sender_of p outbound) key flags now
      (omega (arith, length-prune p now)) d

-- A table within its bound of 4096 flows stays within it, whatever packets come.
pub flows_bounded :
    (p : Policy) (arrivals : List Arrival)
    → length p.flows ≤ max_flows
    → length (after p arrivals).flows ≤ max_flows
unfolding after
flows_bounded p [] small = small
flows_bounded p (a ∷ more) small = flows_bounded (allowed p a.packet a.outbound a.now).0 more (
    Verdict-length p a.packet a.outbound a.now (allowed p a.packet a.outbound a.now) small
      (verdict p a.packet a.outbound a.now))
