-- ===== src/Base/Bits.antt =====
-- Single bits of a word, shifts and truncation to a width.
use Prim.Native.Nat.{ℕ, zero, suc, ◌+◌, ◌-◌, ◌*◌, ◌/◌, ◌%◌, ◌^◌, ◌<◌}
use mathlib.Core.Path.{◌≡◌, refl, ap, ◌∙◌}
use mathlib.Core.Bool.{Bool, false, ◌&&◌, ◌||◌}
use native.Mathlib.Nat.{
  pow-suc, mul_assoc, mod-one, mod-eq_of_lt, add-mul-mod_self_right, div-add-mod, mod-lt,
}
use native.Mathlib.Omega.{arith}
use bpc.Base.Tests.{◌==◌, ltb, leb, if◌then◌else◌, Bool-cases}
use mathlib.Core.Logic.{inl, inr}

-- `m & (1 << k) != 0`
unfoldable pub test_bit : ℕ → ℕ → Bool
test_bit m zero = m % 2 == 1
test_bit m (suc k) = test_bit (m / 2) k

-- `m | (1 << k)`
unfoldable pub set_bit : ℕ → ℕ → ℕ
set_bit m k = if test_bit m k then m else m + 2 ^ k

-- `m << s` in a word of `w` bits.
unfoldable pub shl : ℕ → ℕ → ℕ → ℕ
shl w m s = m * 2 ^ s % 2 ^ w

pow-pos : (w : ℕ) → 0 < 2 ^ w
pow-pos zero = omega arith
pow-pos (suc w) = omega (arith, pow-suc 2 w, pow-pos w)

add_bit-test_bit :
    (m k j : ℕ) → test_bit m k ≡ false → test_bit (m + 2 ^ k) j ≡ (j == k) || test_bit m j
unfolding test_bit
add_bit-test_bit m zero zero h = ground arith
add_bit-test_bit m zero (suc j) h =
    let even : (m + 1) / 2 ≡ m / 2 = ground arith in rw even (ground arith)
add_bit-test_bit m (suc k) zero h = rw (pow-suc 2 k) (ground arith)
add_bit-test_bit m (suc k) (suc j) h =
    let half : (m + 2 ^ k * 2) / 2 ≡ m / 2 + 2 ^ k = omega arith in
    rw (pow-suc 2 k, half, add_bit-test_bit (m / 2) k j h) (ground arith)

pub set_bit-test_bit : (m k j : ℕ) → test_bit (set_bit m k) j ≡ (j == k) || test_bit m j
unfolding set_bit
set_bit-test_bit m k j = elim (Bool-cases (test_bit m k)) [
  | inl e ↦ rw e (elim (Bool-cases (j == k)) [
    | inl same ↦ let e' : j ≡ k = ground arith in rw (e', e) (ground arith)
    | inr differ ↦ rw differ
  ])
  | inr e ↦ rw e (add_bit-test_bit m k j e)
]

zero-test_bit : (j : ℕ) → test_bit 0 j ≡ false
unfolding test_bit
zero-test_bit zero = refl
zero-test_bit (suc j) = zero-test_bit j

pub test_bit_one : (j : ℕ) → test_bit 1 j ≡ (j == 0)
unfolding test_bit
test_bit_one zero = refl
test_bit_one (suc j) = rw (zero-test_bit j) (ground arith)

shift-test_bit : (s m j : ℕ) → test_bit (m * 2 ^ s) j ≡ leb s j && test_bit m (j - s)
unfolding test_bit
shift-test_bit zero m j =
    let whole : m * 1 ≡ m = omega arith in
    let same : j - 0 ≡ j = omega arith in rw (whole, same) (ground arith)
shift-test_bit (suc s) m zero = rw (pow-suc 2 s) (ground (arith, mul_assoc m (2 ^ s) 2))
shift-test_bit (suc s) m (suc j) =
    let half : m * (2 ^ s * 2) / 2 ≡ m * 2 ^ s = omega arith in
    let back : suc j - suc s ≡ j - s = omega arith in
    rw (pow-suc 2 s, half, back, shift-test_bit s m j) (ground arith)

mod_pow_suc : (m w : ℕ) → m % 2 ^ suc w ≡ m / 2 % 2 ^ w * 2 + m % 2
mod_pow_suc m w =
    let p = 2 ^ w in
    let r = m / 2 % p * 2 + m % 2 in
    let pos : 0 < p = pow-pos w in
    let small : r < p * 2 = omega (arith, mod-lt (m / 2) pos) in
    let split : m ≡ r + m / 2 / p * (p * 2) =
      omega (arith, ap (λ (t : ℕ). t * 2) (div-add-mod (m / 2) p)) in
    rw (pow-suc 2 w) (
      ap (λ (t : ℕ). t % (p * 2)) split
      ∙ add-mul-mod_self_right r (m / 2 / p) (p * 2)
      ∙ mod-eq_of_lt small)

mod-test_bit : (w m j : ℕ) → test_bit (m % 2 ^ w) j ≡ ltb j w && test_bit m j
unfolding test_bit
mod-test_bit zero m j = rw (mod-one m, zero-test_bit j) (ground arith)
mod-test_bit (suc w) m zero = rw (mod_pow_suc m w) (ground arith)
mod-test_bit (suc w) m (suc j) =
    let half : (m / 2 % 2 ^ w * 2 + m % 2) / 2 ≡ m / 2 % 2 ^ w = omega arith in
    rw (mod_pow_suc m w, half, mod-test_bit w (m / 2) j) (ground arith)

pub shl-test_bit :
    (w m s j : ℕ) → test_bit (shl w m s) j ≡ ltb j w && (leb s j && test_bit m (j - s))
unfolding shl
shl-test_bit w m s j = rw (mod-test_bit w (m * 2 ^ s) j, shift-test_bit s m j)
