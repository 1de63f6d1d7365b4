-- ===== src/Base/Encoding.antt =====
-- Standard-library text functions that the program calls: `strings.TrimSpace` and
-- `base64.StdEncoding.DecodeString`.
use Prim.Native.Nat.{ℕ, zero, suc, ◌+◌, ◌-◌, ◌*◌, ◌/◌, ◌%◌}
use mathlib.Core.Path.{◌≡◌, refl}
use mathlib.Core.Bool.{Bool, ◌&&◌, ◌||◌}
use mathlib.Core.Option.{Option, none, some}
use mathlib.Core.List.{[], ◌∷◌, reverse}
use bpc.Base.Tests.{leb, ◌==◌, if◌then◌else◌}
use bpc.Base.Lists.{length, drop}
use bpc.Base.Text.{Bytes, codes}

is_ascii_space : ℕ → Bool
is_ascii_space c = c == 32 || (leb 9 c && leb c 13)

-- U+0085 and U+00A0
is_space_pair : ℕ → ℕ → Bool
is_space_pair a b = a == 0xc2 && (b == 0x85 || b == 0xa0)

-- U+1680, U+2000 to U+200A, U+2028, U+2029, U+202F, U+205F and U+3000
is_space_triple : ℕ → ℕ → ℕ → Bool
is_space_triple a b c =
    (a == 0xe1 && (b == 0x9a && c == 0x80))
    || ((a == 0xe2
          && (b == 0x80 && ((leb 0x80 c && leb c 0x8a) || (c == 0xa8 || (c == 0xa9 || c == 0xaf)))))
        || ((a == 0xe2 && (b == 0x81 && c == 0x9f)) || (a == 0xe3 && (b == 0x80 && c == 0x80))))

-- How many bytes a white-space rune takes at the front; 0 if none stands there.
space_size : Bytes → ℕ
unfolding is_ascii_space is_space_pair is_space_triple
space_size [] = 0
space_size (a ∷ []) = if is_ascii_space a then 1 else 0
space_size (a ∷ b ∷ []) = if is_ascii_space a then 1 else if is_space_pair a b then 2 else 0
space_size (a ∷ b ∷ c ∷ s) =
    if is_ascii_space a
    then 1
    else if is_space_pair a b
    then 2
    else if is_space_triple a b c
    then 3
    else 0

-- The same at the back of a text that is given back to front.
space_size_back : Bytes → ℕ
unfolding is_ascii_space is_space_pair is_space_triple
space_size_back [] = 0
space_size_back (a ∷ []) = if is_ascii_space a then 1 else 0
space_size_back (a ∷ b ∷ []) = if is_ascii_space a then 1 else if is_space_pair b a then 2 else 0
space_size_back (a ∷ b ∷ c ∷ s) =
    if is_ascii_space a
    then 1
    else if is_space_pair b a
    then 2
    else if is_space_triple c b a
    then 3
    else 0

-- Each round takes a byte at least, so the length is fuel enough.
strip : (Bytes → ℕ) → ℕ → Bytes → Bytes
strip size zero s = s
strip size (suc fuel) s =
    let rest = strip size fuel (drop (size s) s) in if size s == 0 then s else rest

unfoldable pub trim_space : Bytes → Bytes
unfolding strip space_size space_size_back
trim_space s =
    let left = strip space_size (length s) s in
    reverse (strip space_size_back (length left) (reverse left))

trims_spaces : trim_space (codes " \t a b\n ") ≡ codes "a b"
unfolding trim_space
trims_spaces = refl

trims_wide_spaces : trim_space (0xe3 ∷ 0x80 ∷ 0x80 ∷ 65 ∷ 0xc2 ∷ 0xa0 ∷ []) ≡ 65 ∷ []
unfolding trim_space
trims_wide_spaces = refl

sextet : ℕ → Option ℕ
sextet c =
    if leb b'A' c && leb c b'Z'
    then some (c - b'A')
    else if leb b'a' c && leb c b'z'
    then some (c - b'a' + 26)
    else if leb b'0' c && leb c b'9'
    then some (c - b'0' + 52)
    else if c == b'+'
    then some 62
    else if c == b'/'
    then some 63
    else none

without_newlines : Bytes → Bytes
without_newlines [] = []
without_newlines (c ∷ cs) =
    let rest = without_newlines cs in if c == 10 || c == 13 then rest else c ∷ rest

infixl 5 ◌>>=◌
abbrev ◌>>=◌ {ℓ κ} : {A : Type ℓ} {B : Type κ} → Option A → (A → Option B) → Option B
none >>= f = none
some a >>= f = f a

-- A last group of four, with its padding; the bits that are left over are not looked at.
last_group : ℕ → ℕ → ℕ → ℕ → Option Bytes
unfolding sextet
last_group a b c d = if c == b'=' && d == b'=' then one else if d == b'=' then two else three
  where
    one : Option Bytes
    one = do w ← sextet a; x ← sextet b; some ((w * 4 + x / 16) ∷ [])

    two : Option Bytes
    two = do
      w ← sextet a
      x ← sextet b
      y ← sextet c
      some ((w * 4 + x / 16) ∷ (x % 16 * 16 + y / 4) ∷ [])

    three : Option Bytes
    three = do
      w ← sextet a
      x ← sextet b
      y ← sextet c
      z ← sextet d
      some ((w * 4 + x / 16) ∷ (x % 16 * 16 + y / 4) ∷ (y % 4 * 64 + z) ∷ [])

groups : Bytes → Option Bytes
unfolding last_group sextet
groups [] = some []
groups (a ∷ b ∷ c ∷ d ∷ []) = last_group a b c d
groups (a ∷ b ∷ c ∷ d ∷ s) = do
  w ← sextet a
  x ← sextet b
  y ← sextet c
  z ← sextet d
  rest ← groups s
  some ((w * 4 + x / 16) ∷ (x % 16 * 16 + y / 4) ∷ (y % 4 * 64 + z) ∷ rest)
groups _ = none

unfoldable pub base64_decode : Bytes → Option Bytes
unfolding groups without_newlines
base64_decode s = groups (without_newlines s)

decodes_padded : base64_decode (codes "QlBD\nUg==") ≡ some (codes "BPCR")
unfolding base64_decode
decodes_padded = refl
