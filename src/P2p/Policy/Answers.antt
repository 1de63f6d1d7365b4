-- ===== src/P2p/Policy/Answers.antt =====
-- A host of internal/p2p/policy.go only answers: runs of `Allowed` from an empty table on.
use mathlib.Core.List.{Memᴰ}
use bpc.Base.{
  ℕ, Bool, true, false, List, [], ◌∷◌, ◌++◌, if◌then◌else◌, Bytes, none, some, Option-cases,
  Bool-cases, inl, inr, ◌≡◌, refl, ap, arith,
}
use bpc.P2p.Policy.{
  Policy, Flow, Flows, initiator, host, active, flow_until, classify, prune, live, established,
  denied, sender_of, allowed,
}
use bpc.P2p.Policy.History.{
  Verdict, closed, malformed, refused, passed, verdict, allowed-Passed, Side-cases, Known,
  Known-cons, prune-Known, flow_until-Known, extend-Known,
}

-- One call of `Allowed`.
pub record Arrival : Type 0 where
  pub packet : Bytes
  pub outbound : Bool
  pub now : ℕ

unfoldable pub after : Policy → List Arrival → Policy
after p [] = p
after p (a ∷ rest) = after (allowed p a.packet a.outbound a.now).0 rest

-- The flow that an initiator's packet opens or keeps open, if it is let through.
opening : Policy → Arrival → List Flow
opening p a = elim (classify p a.packet a.outbound) [
  | none ↦ []
  | some (key, flags) ↦ elim (sender_of p a.outbound) [
    | initiator ↦ if (allowed p a.packet a.outbound a.now).1 then key ∷ [] else []
    | host ↦ []
  ]
]

-- The flows whose initiator has had a packet let through, the last one first.
pub opened : Policy → List Flow → List Arrival → List Flow
unfolding opening
opened p seen [] = seen
opened p seen (a ∷ rest) = opened (allowed p a.packet a.outbound a.now).0 (opening p a ++ seen) rest

opening-Known :
    (p : Policy) (a : Arrival) (seen : List Flow) (m : Flows)
    → Known seen m
    → Known (opening p a ++ seen) m
unfolding opening
opening-Known p a seen m h = elim (Option-cases (classify p a.packet a.outbound)) [
  | inl e ↦ rw (e, opening) h
  | inr ((key, flags), e) ↦ elim (Side-cases (sender_of p a.outbound)) [
    | inr s ↦ rw (e, s, opening) h
    | inl s ↦ elim (Bool-cases (allowed p a.packet a.outbound a.now).1) [
      | inl b ↦ rw (e, s, b, opening) (Known-cons key seen m h)
      | inr b ↦ rw (e, s, b, opening) h
    ]
  ]
]

-- What a host is let through for.
established-Known :
    (seen : List Flow) (p : Policy) (key : Flow) (flags now : ℕ)
    → Known seen p.flows
    → denied p host key flags now ≡ false
    → Memᴰ key seen
unfolding denied established live
established-Known seen p key flags now h d = elim (Option-cases (flow_until key p.flows)) [
  | inl e ↦ absurd (ground arith)
  | inr (until, e) ↦ flow_until-Known seen key p.flows until h e
]

passed-Mem :
    (seen : List Flow) (p : Policy) (a : Arrival) (key : Flow) (flags : ℕ)
    → Known seen p.flows
    → classify p a.packet a.outbound ≡ some (key, flags)
    → denied (prune p a.now) (sender_of p a.outbound) key flags a.now ≡ false
    → (allowed p a.packet a.outbound a.now).1 ≡ true
    → Memᴰ key (opening p a ++ seen)
unfolding opening
passed-Mem seen p a key flags h e d ok = elim (Side-cases (sender_of p a.outbound)) [
  | inl s ↦ rw (e, s, ok, opening) (Memᴰ.head refl)
  | inr s ↦
      rw (e, s, opening)
        (established-Known seen (prune p a.now) key flags a.now (prune-Known seen p a.now h)
          (rw s at d))
]

allowed-Known :
    (seen : List Flow) (p : Policy) (a : Arrival)
    → Known seen p.flows
    → Known (opening p a ++ seen) (allowed p a.packet a.outbound a.now).0.flows
allowed-Known seen p a h =
    go (allowed p a.packet a.outbound a.now) (verdict p a.packet a.outbound a.now) refl
  where
    go :
        (r : Policy × Bool)
        → Verdict p a.packet a.outbound a.now r
        → allowed p a.packet a.outbound a.now ≡ r
        → Known (opening p a ++ seen) r.0.flows
    go r (closed c) same = tt
    go r (malformed e) same = opening-Known p a seen p.flows h
    go r (refused key flags e d) same =
        opening-Known p a seen (prune p a.now).flows (prune-Known seen p a.now h)
    go r (passed key flags alive leased e d) same =
        extend-Known (opening p a ++ seen) (prune p a.now) key flags a.now
          (passed-Mem seen p a key flags h e d (ap (λ (s : Policy × Bool). s.1) same))
          (opening-Known p a seen (prune p a.now).flows (prune-Known seen p a.now h))

after-Known :
    (seen : List Flow) (p : Policy) (rest : List Arrival)
    → Known seen p.flows
    → Known (opened p seen rest) (after p rest).flows
unfolding after opened
after-Known seen p [] h = h
after-Known seen p (a ∷ rest) h =
    after-Known (opening p a ++ seen) (allowed p a.packet a.outbound a.now).0 rest
      (allowed-Known seen p a h)

-- Whatever has come and gone since the table was empty, a packet of the host is let through only if
-- a packet of the same flow from the initiator was let through before; the policy is then not
-- revoked and its session is active.
pub host_answers :
    (p : Policy) (rest : List Arrival) (packet : Bytes) (outbound : Bool) (now : ℕ)
    → p.flows ≡ []
    → sender_of (after p rest) outbound ≡ host
    → (allowed (after p rest) packet outbound now).1 ≡ true
    → (key : Flow) × (flags : ℕ) × (classify (after p rest) packet outbound ≡ some (key, flags))
      × Memᴰ key (opened p [] rest)
      × ((after p rest).revoked ≡ false)
      × (active (after p rest).session now ≡ true)
host_answers p rest packet outbound now empty sender h =
    let q = after p rest in
    let t = allowed-Passed q packet outbound now h in
    let known : Known (opened p [] rest) q.flows = after-Known [] p rest (rw empty tt) in
    (
      t.key,
      t.flags,
      t.flow,
      established-Known (opened p [] rest) (prune q now) t.key t.flags now
          (prune-Known (opened p [] rest) q now known) (rw sender at t.undenied),
      t.alive,
      t.leased,
    )
