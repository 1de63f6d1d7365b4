-- ===== src/Base/InsertionSort.antt =====
-- A sorting function that keeps the promises of `sort.Slice`, and numbers as an instance of the
-- floats: values for the parameters `Sorter` and `Float`.
use Prim.Native.Nat.{ℕ, ◌+◌, ◌-◌, ◌*◌, ◌/◌}
use mathlib.Core.Path.{◌≡◌, refl}
use mathlib.Core.Logic.{inl, inr, ◌↔◌}
use mathlib.Core.Bool.{Bool, true, false}
use mathlib.Core.List.{List, [], ◌∷◌, Permᴰ}
use mathlib.Core.List.Permᴰ
use native.Mathlib.Omega.{arith}
use bpc.Base.Tests.{ltb, ◌==◌, if◌then◌else◌, Bool-cases}
use bpc.Base.Lists.{All}
use bpc.Base.Sort.{Sorter, Sorted, StrictWeak}
use bpc.Base.Float.{Float}

module _ {A : Type 0} (less : A → A → Bool) where
  abbrev insert_sorted : A → List A → List A
  insert_sorted x [] = x ∷ []
  insert_sorted x (y ∷ ys) = if less y x then y ∷ insert_sorted x ys else x ∷ y ∷ ys

  abbrev insertion_sort : List A → List A
  insertion_sort [] = []
  insertion_sort (x ∷ xs) = insert_sorted x (insertion_sort xs)

  insert_sorted-perm : (x : A) (ys : List A) → Permᴰ (insert_sorted x ys) (x ∷ ys)
  insert_sorted-perm x [] = Permᴰ.refl (x ∷ [])
  insert_sorted-perm x (y ∷ ys) = elim (Bool-cases (less y x)) [
    | inl e ↦ rw e (Permᴰ.trans (Permᴰ.cons refl (insert_sorted-perm x ys)) (Permᴰ.swap refl refl))
    | inr e ↦ rw e (Permᴰ.refl (x ∷ y ∷ ys))
  ]

  pub insertion_sort-perm : (xs : List A) → Permᴰ (insertion_sort xs) xs
  insertion_sort-perm [] = Permᴰ.refl []
  insertion_sort-perm (x ∷ xs) =
      Permᴰ.trans (insert_sorted-perm x (insertion_sort xs))
        (Permᴰ.cons refl (insertion_sort-perm xs))

  module _ (order : StrictWeak less) where
    below_head :
        (x y : A) (ys : List A)
        → less y x ≡ false
        → All (λ z. less z y ≡ false) ys
        → All (λ z. less z x ≡ false) ys
    below_head x y [] e h = tt
    below_head x y (z ∷ ys) e h = (order.comparable z y x h.0 e, below_head x y ys e h.1)

    insert_above :
        (x y : A) (ys : List A)
        → less y x ≡ true
        → All (λ z. less z y ≡ false) ys
        → All (λ z. less z y ≡ false) (insert_sorted x ys)
    insert_above x y [] e h = (ground (arith, order.irreflexive x, order.transitive x y x), tt)
    insert_above x y (z ∷ ys) e h = elim (Bool-cases (less z x)) [
      | inl f ↦ rw f (h.0, insert_above x y ys e h.1)
      | inr f ↦ rw f (ground (arith, order.irreflexive x, order.transitive x y x), h)
    ]

    insert_sorted-Sorted : (x : A) (ys : List A) → Sorted less ys → Sorted less (insert_sorted x ys)
    insert_sorted-Sorted x [] h = (tt, tt)
    insert_sorted-Sorted x (y ∷ ys) h = elim (Bool-cases (less y x)) [
      | inl e ↦ rw e (insert_above x y ys e h.0, insert_sorted-Sorted x ys h.1)
      | inr e ↦ rw e ((e, below_head x y ys e h.0), h)
    ]

    pub insertion_sort-Sorted : (xs : List A) → Sorted less (insertion_sort xs)
    insertion_sort-Sorted [] = tt
    insertion_sort-Sorted (x ∷ xs) =
        insert_sorted-Sorted x (insertion_sort xs) (insertion_sort-Sorted xs)

abbrev pub insertion_sorter : Sorter
insertion_sorter = record {
  sort = insertion_sort;
  sort-perm = insertion_sort-perm;
  sort-Sorted = λ less xs order. insertion_sort-Sorted less order xs;
}

pub ltb-StrictWeak : StrictWeak ltb
ltb-StrictWeak = record {
  irreflexive = λ a. ground arith;
  transitive = λ a b c h k. ground arith;
  comparable = λ a b c h k. ground arith;
}

pub eq_iff_ℕ : (a b : ℕ) → ((a == b) ≡ true) ↔ ((ltb a b ≡ false) × (ltb b a ≡ false))
eq_iff_ℕ a b = ground arith

abbrev pub number_float : Float
number_float = record {
  F = ℕ;
  of_ℕ = λ n. n;
  add = λ a b. a + b;
  sub = λ a b. a - b;
  mul = λ a b. a * b;
  div = λ a b. a / b;
  lt = ltb;
  eq = λ a b. a == b;
  lt-StrictWeak = ltb-StrictWeak;
  eq_iff = eq_iff_ℕ;
}
