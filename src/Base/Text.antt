-- ===== src/Base/Text.antt =====
-- Byte strings: a Go string or `[]byte` is the list of its bytes.
use Prim.Native.Nat.{ℕ, zero, suc, ◌+◌, ◌*◌, ◌/◌, ◌%◌, ◌^◌, ◌<◌}
use Prim.Native.Char.{code}
use Prim.Native.String.{String}
use mathlib.Core.Path.{◌≡◌, refl}
use mathlib.Core.Logic.{◌↔◌, ◌≢◌}
use mathlib.Core.Bool.{Bool, true, false, ◌&&◌, ◌||◌}
use mathlib.Core.List.{List, [], ◌∷◌, ◌++◌}
use native.Mathlib.Nat.{pow-suc}
use native.Mathlib.Omega.{arith}
use bpc.Base.Tests.{◌==◌, ltb}
use bpc.Base.Lists.{length, length-append}

abbrev pub Bytes : Type 0
Bytes = List ℕ

abbrev pub IsByte : ℕ → Type 0
IsByte b = b < 256

-- The bytes of an ASCII text.
abbrev pub codes : String → Bytes
codes String.[] = []
codes (String.◌∷◌ c s) = code c ∷ codes s

-- `==` of two strings, `bytes.Equal` of two slices.
unfoldable pub bytes_eq : Bytes → Bytes → Bool
bytes_eq [] [] = true
bytes_eq [] (y ∷ ys) = false
bytes_eq (x ∷ xs) [] = false
bytes_eq (x ∷ xs) (y ∷ ys) = x == y && bytes_eq xs ys

pub bytes_eq_refl : (xs : Bytes) → bytes_eq xs xs ≡ true
unfolding bytes_eq
bytes_eq_refl [] = refl
bytes_eq_refl (x ∷ xs) = ground (arith, bytes_eq_refl xs)

pub bytes_eq→≡ : (xs ys : Bytes) → bytes_eq xs ys ≡ true → xs ≡ ys
unfolding bytes_eq
bytes_eq→≡ [] [] h = refl
bytes_eq→≡ [] (y ∷ ys) h = cc
bytes_eq→≡ (x ∷ xs) [] h = cc
bytes_eq→≡ (x ∷ xs) (y ∷ ys) h = ground (arith, bytes_eq→≡ xs ys)

pub bytes_eq_iff : (xs ys : Bytes) → (bytes_eq xs ys ≡ true) ↔ (xs ≡ ys)
bytes_eq_iff xs ys = (bytes_eq→≡ xs ys, λ e. rw e (bytes_eq_refl ys))

-- Whether a string is in a set of strings.
unfoldable pub has : Bytes → List Bytes → Bool
has x [] = false
has x (y ∷ ys) = bytes_eq x y || has x ys

pub has-cons : (x y : Bytes) (ys : List Bytes) → has x (y ∷ ys) ≡ bytes_eq x y || has x ys
unfolding has
has-cons x y ys = refl

pub has-nil : (x : Bytes) → has x [] ≡ false
unfolding has
has-nil x = refl

pub ne-bytes_eq : (x y : Bytes) → x ≢ y → bytes_eq x y ≡ false
ne-bytes_eq x y h = ground (arith, bytes_eq_iff x y)

pub bytes_eq-ne : (x y : Bytes) → bytes_eq x y ≡ false → x ≢ y
bytes_eq-ne x y h e = cc ((bytes_eq_iff x y).1 e)

-- A big-endian number, and its bytes.
pub be_from : ℕ → Bytes → ℕ
be_from acc [] = acc
be_from acc (b ∷ bs) = be_from (acc * 256 + b) bs

unfoldable pub be : Bytes → ℕ
unfolding be_from
be bs = be_from 0 bs

unfoldable pub put_be : ℕ → ℕ → Bytes
put_be zero v = []
put_be (suc n) v = put_be n (v / 256) ++ (v % 256 ∷ [])

be_from-append : (acc : ℕ) (xs ys : Bytes) → be_from acc (xs ++ ys) ≡ be_from (be_from acc xs) ys
unfolding be_from
be_from-append acc [] ys = refl
be_from-append acc (x ∷ xs) ys = be_from-append (acc * 256 + x) xs ys

pub length-put_be : (n v : ℕ) → length (put_be n v) ≡ n
unfolding put_be
length-put_be zero v = refl
length-put_be (suc n) v =
    omega (arith, length-append (put_be n (v / 256)) (v % 256 ∷ []), length-put_be n (v / 256))

-- Reading back the `n` bytes of a number that fits in them.
pub be-put_be : (n v : ℕ) → v < 256 ^ n → be (put_be n v) ≡ v
unfolding be put_be
be-put_be zero v h = omega arith
be-put_be (suc n) v h = omega (
  arith,
  be_from-append 0 (put_be n (v / 256)) (v % 256 ∷ []),
  be-put_be n (v / 256) (omega (arith, pow-suc 256 n)),
)

pub put_be-be_pair : (a b : ℕ) → IsByte a → IsByte b → put_be 2 (be (a ∷ b ∷ [])) ≡ a ∷ b ∷ []
unfolding be put_be
put_be-be_pair a b ha hb = ground arith

pub be_pair : (a b : ℕ) → be (a ∷ b ∷ []) ≡ a * 256 + b
unfolding be
be_pair a b = omega arith

-- The order of two strings.
unfoldable pub bytes_lt : Bytes → Bytes → Bool
bytes_lt [] [] = false
bytes_lt [] (y ∷ ys) = true
bytes_lt (x ∷ xs) [] = false
bytes_lt (x ∷ xs) (y ∷ ys) = ltb x y || (x == y && bytes_lt xs ys)

pub bytes_lt_irreflexive : (xs : Bytes) → bytes_lt xs xs ≡ false
unfolding bytes_lt
bytes_lt_irreflexive [] = refl
bytes_lt_irreflexive (x ∷ xs) = ground (arith, bytes_lt_irreflexive xs)

pub bytes_lt_transitive :
    (xs ys zs : Bytes) → bytes_lt xs ys ≡ true → bytes_lt ys zs ≡ true → bytes_lt xs zs ≡ true
unfolding bytes_lt
bytes_lt_transitive [] [] zs h k = cc
bytes_lt_transitive [] (y ∷ ys) [] h k = cc
bytes_lt_transitive [] (y ∷ ys) (z ∷ zs) h k = refl
bytes_lt_transitive (x ∷ xs) [] zs h k = cc
bytes_lt_transitive (x ∷ xs) (y ∷ ys) [] h k = cc
bytes_lt_transitive (x ∷ xs) (y ∷ ys) (z ∷ zs) h k = ground (arith, bytes_lt_transitive xs ys zs)

pub bytes_lt_comparable :
    (xs ys zs : Bytes) → bytes_lt xs ys ≡ false → bytes_lt ys zs ≡ false → bytes_lt xs zs ≡ false
unfolding bytes_lt
bytes_lt_comparable xs [] [] h k = h
bytes_lt_comparable xs [] (z ∷ zs) h k = cc
bytes_lt_comparable [] (y ∷ ys) zs h k = cc
bytes_lt_comparable (x ∷ xs) (y ∷ ys) [] h k = refl
bytes_lt_comparable (x ∷ xs) (y ∷ ys) (z ∷ zs) h k = ground (arith, bytes_lt_comparable xs ys zs)

-- `strings.HasPrefix`
unfoldable pub has_prefix : Bytes → Bytes → Bool
has_prefix s [] = true
has_prefix [] (p ∷ ps) = false
has_prefix (x ∷ s) (p ∷ ps) = x == p && has_prefix s ps

-- What lies between a prefix and a text with that prefix has the prefix.
pub has_prefix_between :
    (p a b : Bytes)
    → bytes_lt a p ≡ false
    → bytes_lt a b ≡ true
    → has_prefix b p ≡ true
    → has_prefix a p ≡ true
unfolding bytes_lt has_prefix
has_prefix_between [] a b h k e = refl
has_prefix_between (p ∷ ps) [] b h k e = cc
has_prefix_between (p ∷ ps) (x ∷ a) [] h k e = cc
has_prefix_between (p ∷ ps) (x ∷ a) (y ∷ b) h k e = ground (arith, has_prefix_between ps a b)

-- A text with a prefix does not come before it.
pub has_prefix-bytes_lt : (p a : Bytes) → has_prefix a p ≡ true → bytes_lt a p ≡ false
unfolding bytes_lt has_prefix
has_prefix-bytes_lt [] [] h = refl
has_prefix-bytes_lt [] (x ∷ a) h = refl
has_prefix-bytes_lt (p ∷ ps) [] h = cc
has_prefix-bytes_lt (p ∷ ps) (x ∷ a) h = ground (arith, has_prefix-bytes_lt ps a)

-- Of two texts one comes first.
pub bytes_lt_total :
    (xs ys : Bytes) → bytes_lt xs ys ≡ false → bytes_eq xs ys ≡ false → bytes_lt ys xs ≡ true
unfolding bytes_lt bytes_eq
bytes_lt_total [] [] h k = cc
bytes_lt_total [] (y ∷ ys) h k = cc
bytes_lt_total (x ∷ xs) [] h k = refl
bytes_lt_total (x ∷ xs) (y ∷ ys) h k = ground (arith, bytes_lt_total xs ys)
