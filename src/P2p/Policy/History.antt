-- ===== src/P2p/Policy/History.antt =====
-- What the table of flows of internal/p2p/policy.go stands for.
use mathlib.Core.List.{Memᴰ}
use mathlib.Core.Path.{subst}
use bpc.Base.{
  ℕ, ◌+◌, ◌==◌, ltb, Bool, true, false, not, ◌&&◌, ◌||◌, List, [], ◌∷◌, Bytes, All, none, some,
  Option-cases, Bool-cases, inl, inr, ◌≡◌, ◌↔◌, ◌⊎◌, refl, arith,
}
use bpc.P2p.Policy.{
  Policy, Flow, Flows, Side, initiator, host, active, flow_eq, flow_until, put_flow, drop_flow,
  live_flows, due, rst, classify, prune, denied, extend, sender_of, allowed,
}

-- The ways that a decision of `Allowed` goes.
pub data Verdict (p : Policy) (packet : Bytes) (outbound : Bool) (now : ℕ)
    : Policy × Bool → Type 0 where
  closed :
      (p.revoked || not (active p.session now)) ≡ true
      → Verdict p packet outbound now (record p { flows = [] }, false)
  malformed : classify p packet outbound ≡ none → Verdict p packet outbound now (p, false)
  refused :
      (key : Flow) (flags : ℕ)
      → classify p packet outbound ≡ some (key, flags)
      → denied (prune p now) (sender_of p outbound) key flags now ≡ true
      → Verdict p packet outbound now (prune p now, false)
  passed :
      (key : Flow) (flags : ℕ)
      → p.revoked ≡ false
      → active p.session now ≡ true
      → classify p packet outbound ≡ some (key, flags)
      → denied (prune p now) (sender_of p outbound) key flags now ≡ false
      → Verdict p packet outbound now (extend (prune p now) key flags now, true)

pub verdict :
    (p : Policy) (packet : Bytes) (outbound : Bool) (now : ℕ)
    → Verdict p packet outbound now (allowed p packet outbound now)
unfolding allowed
verdict p packet outbound now = elim (Bool-cases (p.revoked || not (active p.session now))) [
  | inl c ↦ rw (c, allowed) (closed c)
  | inr c ↦ elim (Option-cases (classify p packet outbound)) [
    | inl e ↦ rw (c, e, allowed) (malformed e)
    | inr ((key, flags), e) ↦
        elim (Bool-cases (denied (prune p now) (sender_of p outbound) key flags now)) [
          | inl d ↦ rw (c, e, d, allowed) (refused key flags e d)
          | inr d ↦ rw (c, e, d, allowed) (passed key flags (ground arith) (ground arith) e d)
        ]
  ]
]

-- What a packet that was let through has passed.
pub record Passed (p : Policy) (packet : Bytes) (outbound : Bool) (now : ℕ) : Type 0 where
  pub key : Flow
  pub flags : ℕ
  pub alive : p.revoked ≡ false
  pub leased : active p.session now ≡ true
  pub flow : classify p packet outbound ≡ some (key, flags)
  pub undenied : denied (prune p now) (sender_of p outbound) key flags now ≡ false

Verdict-Passed :
    (p : Policy) (packet : Bytes) (outbound : Bool) (now : ℕ) (r : Policy × Bool)
    → Verdict p packet outbound now r
    → r.1 ≡ true
    → Passed p packet outbound now
Verdict-Passed p packet outbound now r (closed c) won = absurd (ground arith)
Verdict-Passed p packet outbound now r (malformed e) won = absurd (ground arith)
Verdict-Passed p packet outbound now r (refused key flags e d) won = absurd (ground arith)
Verdict-Passed p packet outbound now r (passed key flags alive leased e d) won = record {
  key = key;
  flags = flags;
  alive = alive;
  leased = leased;
  flow = e;
  undenied = d;
}

pub allowed-Passed :
    (p : Policy) (packet : Bytes) (outbound : Bool) (now : ℕ)
    → (allowed p packet outbound now).1 ≡ true
    → Passed p packet outbound now
allowed-Passed p packet outbound now h =
    Verdict-Passed p packet outbound now (allowed p packet outbound now)
      (verdict p packet outbound now) h

pub flow_eq_iff : (f g : Flow) → (flow_eq f g ≡ true) ↔ (f ≡ g)
unfolding flow_eq
flow_eq_iff f g = (λ h. ground arith, λ e. ground arith)

pub Side-cases : (s : Side) → (s ≡ initiator) ⊎ (s ≡ host)
Side-cases initiator = inl refl
Side-cases host = inr refl

-- Every flow of the table is one of the given flows.
abbrev pub Known : List Flow → Flows → Type 0
Known seen = All (λ e. Memᴰ e.0 seen)

pub Known-cons : (f : Flow) (seen : List Flow) (m : Flows) → Known seen m → Known (f ∷ seen) m
Known-cons f seen [] h = tt
Known-cons f seen ((g, u) ∷ m) h = (Memᴰ.tail h.0, Known-cons f seen m h.1)

put_flow-Known :
    (seen : List Flow) (f : Flow) (until : ℕ) (m : Flows)
    → Memᴰ f seen
    → Known seen m
    → Known seen (put_flow f until m)
unfolding put_flow
put_flow-Known seen f until [] n h = (n, tt)
put_flow-Known seen f until ((g, u) ∷ m) n h = elim (Bool-cases (flow_eq g f)) [
  | inl e ↦ rw e (n, h.1)
  | inr e ↦ rw e (h.0, put_flow-Known seen f until m n h.1)
]

drop_flow-Known :
    (seen : List Flow) (f : Flow) (m : Flows) → Known seen m → Known seen (drop_flow f m)
unfolding drop_flow
drop_flow-Known seen f [] h = tt
drop_flow-Known seen f ((g, u) ∷ m) h = elim (Bool-cases (flow_eq g f)) [
  | inl e ↦ rw e (drop_flow-Known seen f m h.1)
  | inr e ↦ rw e (h.0, drop_flow-Known seen f m h.1)
]

live_flows-Known :
    (seen : List Flow) (now : ℕ) (m : Flows) → Known seen m → Known seen (live_flows now m)
unfolding live_flows
live_flows-Known seen now [] h = tt
live_flows-Known seen now ((g, u) ∷ m) h = elim (Bool-cases (ltb now u)) [
  | inl e ↦ rw e (h.0, live_flows-Known seen now m h.1)
  | inr e ↦ rw e (live_flows-Known seen now m h.1)
]

pub prune-Known :
    (seen : List Flow) (p : Policy) (now : ℕ) → Known seen p.flows → Known seen (prune p now).flows
unfolding prune
prune-Known seen p now h = elim (Bool-cases (due p.next_prune now)) [
  | inl e ↦ rw e (live_flows-Known seen now p.flows h)
  | inr e ↦ rw e h
]

pub flow_until-Known :
    (seen : List Flow) (f : Flow) (m : Flows) (until : ℕ)
    → Known seen m
    → flow_until f m ≡ some until
    → Memᴰ f seen
unfolding flow_until
flow_until-Known seen f [] until h e = absurd (ground arith)
flow_until-Known seen f ((g, u) ∷ m) until h e = elim (Bool-cases (flow_eq g f)) [
  | inl k ↦ subst (λ x. Memᴰ x seen) ((flow_eq_iff g f).0 k) h.0
  | inr k ↦ flow_until-Known seen f m until h.1 (rw k at e)
]

pub extend-Known :
    (seen : List Flow) (p : Policy) (key : Flow) (flags now : ℕ)
    → Memᴰ key seen
    → Known seen p.flows
    → Known seen (extend p key flags now).flows
unfolding extend
extend-Known seen p key flags now n h =
    let put = put_flow-Known seen key (now + 30000000000) p.flows n h in
    elim (Bool-cases (key.protocol == 6 && rst flags)) [
      | inl e ↦ rw e (drop_flow-Known seen key (put_flow key (now + 30000000000) p.flows) put)
      | inr e ↦ rw e put
    ]
