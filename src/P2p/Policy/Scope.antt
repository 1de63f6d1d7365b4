-- ===== src/P2p/Policy/Scope.antt =====
-- Which packets `Allowed` of internal/p2p/policy.go lets through at all.
use bpc.Base.{
  ℕ, Bool, true, false, length, take, drop, get_or, Bytes, be, some, Option-cases, inl, inr, ◌≡◌,
  ◌⊎◌, arith,
}
use bpc.P2p.Policy.{
  Policy, Flow, other_side, active, address_of, service_port, fragment_bits, plain, transport_flags,
  flow_key, classify, sender_of, allowed,
}
use bpc.P2p.Policy.History.{allowed-Passed}

-- An unfragmented IPv4 TCP or UDP packet without options, from the sending side's address to the
-- other's, to or from a port of the service at the host.
pub record InScope (p : Policy) (packet : Bytes) (outbound : Bool) : Type 0 where
  pub header : get_or packet 0 0 ≡ 0x45
  pub size : be (take 2 (drop 2 packet)) ≡ length packet
  pub unfragmented : (be (take 2 (drop 6 packet)) ≡ 0) ⊎ (be (take 2 (drop 6 packet)) ≡ 16384)
  pub protocol : (get_or packet 9 0 ≡ 6) ⊎ (get_or packet 9 0 ≡ 17)
  pub source : be (take 4 (drop 12 packet)) ≡ address_of p.session (sender_of p outbound)
  pub target :
      be (take 4 (drop 16 packet)) ≡ address_of p.session (other_side (sender_of p outbound))
  pub service :
      service_port
        (get_or packet 9 0)
        (flow_key
          (sender_of p outbound)
          (get_or packet 9 0)
          (be (take 2 (drop 20 packet)))
          (be (take 2 (drop 22 packet)))).service
      ≡ true

unfragmented_cases : (v : ℕ) → fragment_bits v ≡ 0 → (v ≡ 0) ⊎ (v ≡ 16384)
unfolding fragment_bits
unfragmented_cases v h = ground arith

record Plain (packet : Bytes) : Type 0 where
  header : get_or packet 0 0 ≡ 0x45
  size : be (take 2 (drop 2 packet)) ≡ length packet
  bits : fragment_bits (be (take 2 (drop 6 packet))) ≡ 0

plain-Plain : (packet : Bytes) → plain packet ≡ true → Plain packet
unfolding plain
plain-Plain packet h = ground arith

classify-InScope :
    (p : Policy) (packet : Bytes) (outbound : Bool) (key : Flow) (flags : ℕ)
    → classify p packet outbound ≡ some (key, flags)
    → InScope p packet outbound
unfolding classify
classify-InScope p packet outbound key flags h =
    elim (Option-cases (transport_flags packet (get_or packet 9 0))) [
      | inl e ↦ absurd (ground arith)
      | inr (fl, e) ↦
          let is_plain : plain packet ≡ true = ground arith in
          let facts = plain-Plain packet is_plain in
          record {
            header = facts.header;
            size = facts.size;
            unfragmented = unfragmented_cases (be (take 2 (drop 6 packet))) facts.bits;
            protocol = ground arith;
            source = ground arith;
            target = ground arith;
            service = ground arith;
          }
    ]

-- A packet that `Allowed` lets through is in the scope of the session, the policy is not revoked,
-- and the session is active.
pub allowed-InScope :
    (p : Policy) (packet : Bytes) (outbound : Bool) (now : ℕ)
    → (allowed p packet outbound now).1 ≡ true
    → InScope p packet outbound × (p.revoked ≡ false) × (active p.session now ≡ true)
allowed-InScope p packet outbound now h =
    let t = allowed-Passed p packet outbound now h in
    (classify-InScope p packet outbound t.key t.flags t.flow, t.alive, t.leased)
