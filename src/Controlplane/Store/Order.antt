-- ===== src/Controlplane/Store/Order.antt =====
-- The order of the keys of internal/controlplane/store.go: big-endian keys come in the order of
-- their numbers, and a cursor that seeks a key skips exactly the smaller ones.
use native.Mathlib.Nat.{pow-suc}
use bpc.Base.{
  ℕ, zero, suc, ◌/◌, ◌%◌, ◌^◌, ◌<◌, true, false, ◌&&◌, ◌||◌, [], ◌∷◌, ◌++◌, length, length-put_be,
  ltb, ◌==◌, if◌then◌else◌, Bytes, bytes_eq, bytes_eq_iff, bytes_lt, bytes_lt_transitive, put_be,
  All, none, Bool-cases, inl, inr, ◌≡◌, refl, sym, ◌∙◌, arith,
}
use bpc.Base.Dict.{Dict, lookup}
use bpc.Controlplane.RaftLog.{u64key}
use bpc.Controlplane.Bolt.{Ascending}
use bpc.Controlplane.Store.{seek}

-- The last byte decides where the others agree.
snoc-bytes_lt :
    (xs ys : Bytes) (x y : ℕ)
    → length xs ≡ length ys
    → bytes_lt (xs ++ (x ∷ [])) (ys ++ (y ∷ [])) ≡ bytes_lt xs ys || (bytes_eq xs ys && ltb x y)
unfolding bytes_lt bytes_eq
snoc-bytes_lt [] [] x y h = ground arith
snoc-bytes_lt [] (b ∷ ys) x y h = absurd (omega arith)
snoc-bytes_lt (a ∷ xs) [] x y h = absurd (omega arith)
snoc-bytes_lt (a ∷ xs) (b ∷ ys) x y h = ground (arith, snoc-bytes_lt xs ys x y)

snoc-bytes_eq :
    (xs ys : Bytes) (x y : ℕ)
    → length xs ≡ length ys
    → bytes_eq (xs ++ (x ∷ [])) (ys ++ (y ∷ [])) ≡ bytes_eq xs ys && x == y
unfolding bytes_eq
snoc-bytes_eq [] [] x y h = ground arith
snoc-bytes_eq [] (b ∷ ys) x y h = absurd (omega arith)
snoc-bytes_eq (a ∷ xs) [] x y h = absurd (omega arith)
snoc-bytes_eq (a ∷ xs) (b ∷ ys) x y h = ground (arith, snoc-bytes_eq xs ys x y)

put_be-order :
    (n a b : ℕ)
    → a < 256 ^ n
    → b < 256 ^ n
    → (bytes_lt (put_be n a) (put_be n b) ≡ ltb a b)
      × (bytes_eq (put_be n a) (put_be n b) ≡ (a == b))
unfolding put_be
put_be-order zero a b ha hb = unfold bytes_lt bytes_eq in (ground arith, ground arith)
put_be-order (suc n) a b ha hb =
    let (less, same) =
      put_be-order n (a / 256) (b / 256) (omega (arith, pow-suc 256 n))
        (omega (arith, pow-suc 256 n)) in
    let size : length (put_be n (a / 256)) ≡ length (put_be n (b / 256)) =
      length-put_be n (a / 256) ∙ sym (length-put_be n (b / 256)) in
    (
      snoc-bytes_lt (put_be n (a / 256)) (put_be n (b / 256)) (a % 256) (b % 256) size
          ∙ rw (less, same) (ground arith),
      snoc-bytes_eq (put_be n (a / 256)) (put_be n (b / 256)) (a % 256) (b % 256) size
          ∙ rw same (ground arith),
    )

pub u64key-bytes_lt :
    (a b : ℕ) → a < 256 ^ 8 → b < 256 ^ 8 → bytes_lt (u64key a) (u64key b) ≡ ltb a b
unfolding u64key
u64key-bytes_lt a b ha hb = (put_be-order 8 a b ha hb).0

pub u64key-bytes_eq :
    (a b : ℕ) → a < 256 ^ 8 → b < 256 ^ 8 → bytes_eq (u64key a) (u64key b) ≡ (a == b)
unfolding u64key
u64key-bytes_eq a b ha hb = (put_be-order 8 a b ha hb).1

-- Nothing stands below the first key.
pub lookup_below :
    (j k : Bytes) (m : Dict Bytes)
    → bytes_lt j k ≡ false
    → All (λ e. bytes_lt j e.0 ≡ true) m
    → lookup k m ≡ none
unfolding lookup
lookup_below j k [] h a = refl
lookup_below j k ((i, v) ∷ m) h a =
    let differ : bytes_eq i k ≡ false = ground (arith, bytes_eq_iff i k) in
    rw differ (lookup_below j k m h a.1)

pub lookup-seek_from :
    (p k : Bytes) (m : Dict Bytes)
    → Ascending m
    → lookup k (seek p m) ≡ (if bytes_lt k p then none else lookup k m)
unfolding seek lookup
lookup-seek_from p k [] asc = ground arith
lookup-seek_from p k ((j, v) ∷ m) asc = elim (Bool-cases (bytes_lt j p)) [
  | inl e ↦ rw e (lookup-seek_from p k m asc.1 ∙ ground (arith, bytes_eq_iff j k))
  | inr e ↦ rw e (elim (Bool-cases (bytes_lt k p)) [
    | inr f ↦ rw f refl
    | inl f ↦
        let below : bytes_lt j k ≡ false = ground (arith, bytes_lt_transitive j k p) in
        rw f (ground (arith, bytes_eq_iff j k, lookup_below j k m below asc.0))
  ])
]
