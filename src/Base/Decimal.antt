-- ===== src/Base/Decimal.antt =====
-- `%d` of a uint64.
use Prim.Native.Nat.{ℕ, zero, suc, ◌+◌, ◌/◌, ◌%◌}
use mathlib.Core.Path.{◌≡◌, refl}
use mathlib.Core.List.{[], ◌∷◌, ◌++◌}
use bpc.Base.Tests.{ltb, if◌then◌else◌}
use bpc.Base.Text.{Bytes, codes}

-- The digits of a number that has at most `fuel` of them.
digits : ℕ → ℕ → Bytes
digits zero n = []
digits (suc fuel) n =
    let front = digits fuel (n / 10) in
    if ltb n 10 then (48 + n) ∷ [] else front ++ ((48 + n % 10) ∷ [])

-- A uint64 has at most 20 digits.
unfoldable pub print_u64 : ℕ → Bytes
unfolding digits
print_u64 n = digits 20 n

prints : print_u64 18446744073709551615 ≡ codes "18446744073709551615"
unfolding print_u64
prints = refl
