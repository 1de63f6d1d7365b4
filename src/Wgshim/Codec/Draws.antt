-- ===== src/Wgshim/Codec/Draws.antt =====
-- The random lengths and bytes that internal/wgshim/codec.go draws.
use native.Mathlib.Nat.{mod-lt, div-add-mod, mul-le-mul_left}
use bpc.Base.{
  ℕ, ◌+◌, ◌-◌, ◌/◌, ◌%◌, ◌*◌, ◌≤◌, ◌<◌, ◌≡◌, true, false, [], ◌∷◌, ◌++◌, zero, suc, ltb, ◌==◌,
  length, length-append, length-take, length-drop, take, drop, Bytes, some, Bool-cases, inl, inr,
  refl, arith,
}
use bpc.Wgshim.Codec.{Codec, draw_below, random_padding_length, read_full, padding_bytes}

-- What `NewCodec` lets through.
pub record IsCodec (c : Codec) : Type 0 where
  pub ordered : c.padding_min ≤ c.padding_max
  pub small : c.padding_max ≤ 255

draw_below-Range :
    (least span limit : ℕ) (tape : Bytes) (n : ℕ) (t : Bytes)
    → 0 < span
    → draw_below least span limit tape ≡ some (n, t)
    → (least ≤ n) × (n < least + span)
unfolding draw_below
draw_below-Range least span limit [] n t pos h = absurd (ground arith)
draw_below-Range least span limit (b ∷ tape) n t pos h = elim (Bool-cases (ltb b limit)) [
  | inl e ↦
      let same : least + b % span ≡ n = ground arith in
      (omega (arith, same), omega (arith, same, mod-lt b pos))
  | inr e ↦ draw_below-Range least span limit tape n t pos (rw e at h)
]

pub random_padding-Range :
    (c : Codec) (tape : Bytes) (n : ℕ) (t : Bytes)
    → c.padding_min ≤ c.padding_max
    → random_padding_length c tape ≡ some (n, t)
    → (c.padding_min ≤ n) × (n ≤ c.padding_max)
unfolding random_padding_length
random_padding-Range c tape n t order h = elim (Bool-cases (c.padding_min == c.padding_max)) [
  | inl e ↦
      let same : c.padding_min ≡ n = ground arith in (omega (arith, same), omega (arith, same))
  | inr e ↦
      let span = c.padding_max - c.padding_min + 1 in
      let range =
        draw_below-Range c.padding_min span (256 - 256 % span) tape n t (omega arith) (rw e at h) in
      (range.0, omega (arith, range.1))
]

above_half : (span q r : ℕ) → span * q + r ≡ 256 → r < span → span ≤ 256 → 128 < 256 - r
above_half span zero r e lt small =
    absurd (omega (arith, e, mul-le-mul_left {m = 0} {n = 0} span (omega arith)))
above_half span (suc q) r e lt small =
    let least : span * 1 ≤ span * suc q = mul-le-mul_left span (omega arith) in
    omega (arith, e, least)

-- At most half of the bytes are drawn in vain.
limit_large : (span : ℕ) → 0 < span → span ≤ 256 → 128 < 256 - 256 % span
limit_large span pos small =
    above_half span (256 / span) (256 % span) (div-add-mod 256 span) (mod-lt 256 pos) small

-- A byte below 128 ends the loop, whatever stands before it.
draw_below_ends :
    (least span limit : ℕ) (skipped : Bytes) (b : ℕ) (rest : Bytes)
    → b < limit
    → (n : ℕ) × (t : Bytes) × (draw_below least span limit (skipped ++ (b ∷ rest)) ≡ some (n, t))
      × (length rest ≤ length t)
unfolding draw_below
draw_below_ends least span limit [] b rest h =
    let e : ltb b limit ≡ true = ground arith in (least + b % span, rest, rw e refl, omega arith)
draw_below_ends least span limit (a ∷ skipped) b rest h = elim (Bool-cases (ltb a limit)) [
  | inl e ↦ (
    least + a % span,
    skipped ++ (b ∷ rest),
    rw e refl,
    omega (arith, length-append skipped (b ∷ rest)),
  )
  | inr e ↦
      let (n, t, f, g) = draw_below_ends least span limit skipped b rest h in (n, t, rw e f, g)
]

pub random_padding_ends :
    (c : Codec) (skipped : Bytes) (b : ℕ) (rest : Bytes)
    → IsCodec c
    → b < 128
    → (n : ℕ) × (t : Bytes) × (random_padding_length c (skipped ++ (b ∷ rest)) ≡ some (n, t))
      × (length rest ≤ length t)
unfolding random_padding_length
random_padding_ends c skipped b rest good h = elim (Bool-cases (c.padding_min == c.padding_max)) [
  | inl e ↦ (
    c.padding_min,
    skipped ++ (b ∷ rest),
    rw e refl,
    omega (arith, length-append skipped (b ∷ rest)),
  )
  | inr e ↦
      let span = c.padding_max - c.padding_min + 1 in
      let large = limit_large span (omega arith) (omega (arith, good.ordered, good.small)) in
      let (n, t, f, g) =
        draw_below_ends c.padding_min span (256 - 256 % span) skipped b rest
          (omega (arith, large)) in
      (n, t, rw e f, g)
]

pub read_full-length : (n : ℕ) (tape xs t : Bytes) → read_full n tape ≡ some (xs, t) → length xs ≡ n
unfolding read_full
read_full-length n tape xs t h = elim (Bool-cases (ltb (length tape) n)) [
  | inl e ↦ absurd (ground arith)
  | inr e ↦
      let same : take n tape ≡ xs = ground arith in rw (← same) (ground (arith, length-take n tape))
]

pub read_full_ends :
    (n : ℕ) (tape : Bytes)
    → n ≤ length tape
    → (xs : Bytes) × (t : Bytes) × (read_full n tape ≡ some (xs, t)) × (length t ≡ length tape - n)
unfolding read_full
read_full_ends n tape h =
    let e : ltb (length tape) n ≡ false = ground arith in
    (take n tape, drop n tape, rw e refl, length-drop n tape)

pub padding_bytes-length :
    (n : ℕ) (tape xs t : Bytes) → padding_bytes n tape ≡ some (xs, t) → length xs ≡ n
unfolding padding_bytes
padding_bytes-length n tape xs t h = elim (Bool-cases (ltb 0 n)) [
  | inl e ↦ read_full-length n tape xs t (rw e at h)
  | inr e ↦ let same : [] ≡ xs = ground arith in rw (← same) (ground arith)
]

pub padding_bytes_ends :
    (n : ℕ) (tape : Bytes)
    → n ≤ length tape
    → (xs : Bytes) × (t : Bytes) × (padding_bytes n tape ≡ some (xs, t))
      × (length t ≡ length tape - n)
unfolding padding_bytes
padding_bytes_ends n tape h = elim (Bool-cases (ltb 0 n)) [
  | inl e ↦ let (xs, t, f, g) = read_full_ends n tape h in (xs, t, rw e f, g)
  | inr e ↦ ([], tape, rw e refl, ground arith)
]
