-- ===== src/Base/Net.antt =====
-- The part of net/netip that the program uses: IPv4 addresses and prefixes, and their text form.
-- An address is the number of its four bytes.
use Prim.Native.Nat.{ℕ, ◌+◌, ◌-◌, ◌*◌, ◌/◌, ◌%◌, ◌^◌, min}
use mathlib.Core.Bool.{Bool, not, ◌&&◌, ◌||◌}
use mathlib.Core.Option.{Option, none, some}
use mathlib.Core.List.{[], ◌∷◌, ◌++◌}
use bpc.Base.Tests.{ltb, leb, ◌==◌, if◌then◌else◌}
use bpc.Base.Lists.{length}
use bpc.Base.Text.{Bytes}

infixl 5 ◌>>=◌
abbrev ◌>>=◌ {ℓ κ} : {A : Type ℓ} {B : Type κ} → Option A → (A → Option B) → Option B
none >>= f = none
some a >>= f = f a

pub record Prefix : Type 0 where
  pub addr : ℕ
  pub bits : ℕ

-- How many addresses share the first `bits` bits.
abbrev pub block : ℕ → ℕ
block bits = 2 ^ (32 - bits)

unfoldable pub masked : Prefix → Prefix
masked p = record p { addr = p.addr / block p.bits * block p.bits }

unfoldable pub contains : Prefix → ℕ → Bool
contains p a = p.addr / block p.bits == a / block p.bits

-- Two prefixes share an address: they agree on the bits of the shorter one.
unfoldable pub overlaps : Prefix → Prefix → Bool
overlaps p q = let b = min p.bits q.bits in p.addr / block b == q.addr / block b

-- 10.0.0.0/8, 172.16.0.0/12, 192.168.0.0/16
unfoldable pub is_private : ℕ → Bool
is_private a = a / 2 ^ 24 == 10 || (a / 2 ^ 20 == 172 * 16 + 1 || a / 2 ^ 16 == 192 * 256 + 168)

is_digit : ℕ → Bool
is_digit c = leb b'0' c && leb c b'9'

decimal_from : ℕ → Bytes → Option ℕ
unfolding is_digit
decimal_from acc [] = some acc
decimal_from acc (c ∷ cs) =
    let rest = decimal_from (acc * 10 + (c - b'0')) cs in if is_digit c then rest else none

-- A decimal number with no sign and no leading zero, of at most `limit`.
parse_number : ℕ → Bytes → Option ℕ
unfolding decimal_from
parse_number limit [] = none
parse_number limit (c ∷ cs) =
    if c == b'0' && not (length cs == 0) then none else elim (decimal_from 0 (c ∷ cs)) [
      | none ↦ none
      | some v ↦ if ltb limit v then none else some v
    ]

-- The text in front of the first `sep`, and behind it.
cut : ℕ → Bytes → Option (Bytes × Bytes)
cut sep [] = none
cut sep (c ∷ cs) =
    let rest = cut sep cs in if c == sep then some ([], cs) else rest >>= λ r. some (c ∷ r.0, r.1)

-- `ParseAddr` on an IPv4 address; `none` on all else.
unfoldable pub parse_addr4 : Bytes → Option ℕ
unfolding parse_number cut
parse_addr4 s = do
  a ← cut b'.' s
  b ← cut b'.' a.1
  c ← cut b'.' b.1
  w ← parse_number 255 a.0
  x ← parse_number 255 b.0
  y ← parse_number 255 c.0
  z ← parse_number 255 c.1
  some (((w * 256 + x) * 256 + y) * 256 + z)

-- `ParsePrefix` where its answer is an IPv4 prefix; `none` on an error and on an IPv6 prefix.
unfoldable pub parse_prefix4 : Bytes → Option Prefix
unfolding parse_addr4 parse_number cut
parse_prefix4 s = do
  r ← cut b'/' s
  addr ← parse_addr4 r.0
  bits ← parse_number 32 r.1
  some (record { addr = addr; bits = bits })

-- An octet in decimal, without leading zeros.
decimal : ℕ → Bytes
decimal n =
    if ltb n 10
    then (48 + n) ∷ []
    else if ltb n 100
    then (48 + n / 10) ∷ (48 + n % 10) ∷ []
    else (48 + n / 100) ∷ (48 + n / 10 % 10) ∷ (48 + n % 10) ∷ []

-- `netip.Addr.String` of an IPv4 address: four octets in decimal with dots between.
unfoldable pub format_addr4 : ℕ → Bytes
unfolding decimal
format_addr4 a =
    decimal (a / 2 ^ 24 % 256)
    ++ (46 ∷ decimal (a / 2 ^ 16 % 256)
        ++ (46 ∷ decimal (a / 2 ^ 8 % 256) ++ (46 ∷ decimal (a % 256))))
