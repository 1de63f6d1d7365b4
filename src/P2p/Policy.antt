-- ===== src/P2p/Policy.antt =====
-- internal/p2p/policy.go: the packet policy of one session, with `Session.active` and `Side` of
-- internal/p2p/grant.go. Times are nanoseconds; the zero `time.Time` is `none`. Of a session's grant
-- only what the policy reads is kept: the lease and the two addresses.
pub mod History
pub mod Answers
pub mod Bound
pub mod Scope
mod Tests
use bpc.Base.{
  ℕ, ◌+◌, ◌-◌, ◌*◌, ◌/◌, ◌%◌, Bool, true, false, not, ◌&&◌, ◌||◌, List, [], ◌∷◌, ltb, leb, ◌==◌,
  if◌then◌else◌, length, take, drop, get_or, Bytes, be, Option, none, some,
}
use bpc.Base.Bits.{test_bit}
use bpc.Base.Int.{ℤ, pos, ltb_ℤ}

abbrev pub max_flows : ℕ
max_flows = 4096

pub data Side : Type 0 where
  initiator host : Side

pub other_side : Side → Side
other_side initiator = host
other_side host = initiator

pub record SessionAuthorization : Type 0 where
  pub deadline : ℕ
  pub expires_at : ℤ

pub record Session : Type 0 where
  pub issued_at : ℤ
  pub expires_at : ℤ
  pub initiator_address : ℕ
  pub host_address : ℕ
  pub deadline : ℕ
  pub managed : Bool
  pub authorization : Option SessionAuthorization

pub address_of : Session → Side → ℕ
address_of s initiator = s.initiator_address
address_of s host = s.host_address

authorized : Option SessionAuthorization → ℕ → Bool
authorized none now = false
authorized (some a) now = ltb_ℤ (pos (now / 1000000000)) a.expires_at && ltb now a.deadline

pub active : Session → ℕ → Bool
unfolding authorized
active s now =
    if s.managed && not (authorized s.authorization now)
    then false
    else not (ltb_ℤ (pos (now / 1000000000)) s.issued_at)
      && (ltb_ℤ (pos (now / 1000000000)) s.expires_at && ltb now s.deadline)

pub record Flow : Type 0 where
  pub protocol : ℕ
  pub client : ℕ
  pub service : ℕ

pub flow_eq : Flow → Flow → Bool
flow_eq f g = f.protocol == g.protocol && (f.client == g.client && f.service == g.service)

abbrev pub Flows : Type 0
Flows = List (Flow × ℕ)

pub flow_until : Flow → Flows → Option ℕ
flow_until f [] = none
flow_until f ((g, until) ∷ m) = if flow_eq g f then some until else flow_until f m

pub put_flow : Flow → ℕ → Flows → Flows
put_flow f until [] = (f, until) ∷ []
put_flow f until ((g, u) ∷ m) =
    let rest = put_flow f until m in if flow_eq g f then (f, until) ∷ m else (g, u) ∷ rest

pub drop_flow : Flow → Flows → Flows
drop_flow f [] = []
drop_flow f ((g, u) ∷ m) = let rest = drop_flow f m in if flow_eq g f then rest else (g, u) ∷ rest

pub live_flows : ℕ → Flows → Flows
live_flows now [] = []
live_flows now ((g, u) ∷ m) =
    let rest = live_flows now m in if ltb now u then (g, u) ∷ rest else rest

pub record Policy : Type 0 where
  pub session : Session
  pub side : Side
  pub revoked : Bool
  pub flows : Flows
  pub next_prune : Option ℕ

-- `NewPolicy`, with a session.
pub new_policy : Session → Side → ℕ → Option Policy
new_policy s side now =
    if active s now
    then some record { session = s; side = side; revoked = false; flows = []; next_prune = none }
    else none

pub revoke : Policy → Policy
revoke p = record p { revoked = true; flows = [] }

pub service_port : ℕ → ℕ → Bool
service_port protocol port =
    if protocol == 6
    then port == 47984 || (port == 47989 || port == 48010)
    else port == 47998 || (port == 47999 || (port == 48000 || (port == 48002 || port == 48010)))

-- `v & 0xbfff` of a 16-bit number: all bits but the one for "don't fragment".
fragment_bits : ℕ → ℕ
fragment_bits v = v % 16384 + v / 32768 * 32768

-- An IPv4 header without options, of a packet that is not a fragment and is as long as it says.
plain : Bytes → Bool
unfolding fragment_bits
plain packet = not (
    ltb (length packet) 20
    || (not (get_or packet 0 0 == 0x45)
        || (not (be (take 2 (drop 2 packet)) == length packet)
            || not (fragment_bits (be (take 2 (drop 6 packet))) == 0))))

-- The TCP flags, or 0 for UDP; `none` is a malformed transport header.
transport_flags : Bytes → ℕ → Option ℕ
transport_flags packet protocol =
    if protocol == 6
    then (let header = get_or packet 32 0 / 16 * 4 in
        if ltb (length packet) 40 || (ltb header 20 || ltb (length packet) (20 + header))
        then none
        else some (get_or packet 33 0))
    else if be (take 2 (drop 24 packet)) == length packet - 20
    then some 0
    else none

pub sender_of : Policy → Bool → Side
sender_of p outbound = if outbound then p.side else other_side p.side

abbrev pub flow_key : Side → ℕ → ℕ → ℕ → Flow
flow_key initiator protocol src dst = record { protocol = protocol; client = src; service = dst }
flow_key host protocol src dst = record { protocol = protocol; client = dst; service = src }

-- The checks that only read: the flow of the packet and its TCP flags.
pub classify : Policy → Bytes → Bool → Option (Flow × ℕ)
unfolding plain transport_flags
classify p packet outbound =
    let protocol = get_or packet 9 0 in
    let sender = sender_of p outbound in
    let src = be (take 2 (drop 20 packet)) in
    let dst = be (take 2 (drop 22 packet)) in
    let key = flow_key sender protocol src dst in
    if not (plain packet)
    then none
    else if not (protocol == 6 || protocol == 17)
    then none
    else if ltb (length packet) 28
    then none
    else if not (be (take 4 (drop 12 packet)) == address_of p.session sender)
        || not (be (take 4 (drop 16 packet)) == address_of p.session (other_side sender))
    then none
    else if src == 0 || dst == 0
    then none
    else elim (transport_flags packet protocol) [
      | none ↦ none
      | some flags ↦ if service_port protocol key.service then some (key, flags) else none
    ]

due : Option ℕ → ℕ → Bool
due none now = true
due (some t) now = leb t now

-- Once a second, the flows that have ended are dropped.
pub prune : Policy → ℕ → Policy
unfolding due
prune p now =
    if due p.next_prune now
    then record p { flows = live_flows now p.flows; next_prune = some (now + 1000000000) }
    else p

live : Option ℕ → ℕ → Bool
live none now = false
live (some until) now = ltb now until

pub established : Policy → Flow → ℕ → Bool
unfolding live
established p key now = live (flow_until key p.flows) now

abbrev syn : ℕ → Bool
syn flags = test_bit flags 1

abbrev ack : ℕ → Bool
ack flags = test_bit flags 4

abbrev rst : ℕ → Bool
rst flags = test_bit flags 2

-- Whether the packet of a flow is denied: the host may only answer.
pub denied : Policy → Side → Flow → ℕ → ℕ → Bool
denied p host key flags now =
    not (established p key now) || (key.protocol == 6 && (syn flags && not (ack flags)))
denied p initiator key flags now =
    not (established p key now)
    && (leb max_flows (length p.flows) || (key.protocol == 6 && (not (syn flags) || ack flags)))

-- The packet is let through: its flow lives for 30 more seconds, or ends with a reset.
pub extend : Policy → Flow → ℕ → ℕ → Policy
extend p key flags now =
    let flows = put_flow key (now + 30000000000) p.flows in
    record p { flows = if key.protocol == 6 && rst flags then drop_flow key flows else flows }

pub allowed : Policy → Bytes → Bool → ℕ → Policy × Bool
allowed p packet outbound now =
    let clean = prune p now in
    if p.revoked || not (active p.session now)
    then (record p { flows = [] }, false)
    else elim (classify p packet outbound) [
      | none ↦ (p, false)
      | some (key, flags) ↦
          if denied clean (sender_of p outbound) key flags now
          then (clean, false)
          else (extend clean key flags now, true)
    ]
