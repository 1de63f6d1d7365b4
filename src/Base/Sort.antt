-- ===== src/Base/Sort.antt =====
-- `sort.Slice`: what its documentation promises, for a `less` that is a strict weak order.
use mathlib.Core.Path.{◌≡◌, refl, sym, subst, ◌∙◌}
use mathlib.Core.Bool.{Bool, true, false}
use mathlib.Core.List.{List, [], ◌∷◌, Permᴰ, Memᴰ}
use mathlib.Core.List.Permᴰ
use mathlib.Core.Logic.{◌↔◌}
use native.Mathlib.Omega.{arith}
use bpc.Base.Tests.{if◌then◌else◌}
use bpc.Base.Lists.{All}

pub record StrictWeak {ℓ} {A : Type ℓ} (less : A → A → Bool) : Type ℓ where
  pub irreflexive : (a : A) → less a a ≡ false
  pub transitive : (a b c : A) → less a b ≡ true → less b c ≡ true → less a c ≡ true
  pub comparable : (a b c : A) → less a b ≡ false → less b c ≡ false → less a c ≡ false

-- No later element is less than an earlier one.
abbrev pub Sorted {ℓ} : {A : Type ℓ} → (A → A → Bool) → List A → Type 0
Sorted less [] = Unit
Sorted less (x ∷ xs) = All (λ y. less y x ≡ false) xs × Sorted less xs

-- The order of equal elements is left open.
pub record Sorter : Type 1 where
  pub sort : {A : Type 0} → (A → A → Bool) → List A → List A
  pub sort-perm : {A : Type 0} (less : A → A → Bool) (xs : List A) → Permᴰ (sort less xs) xs
  pub sort-Sorted :
      {A : Type 0} (less : A → A → Bool) (xs : List A)
      → StrictWeak less
      → Sorted less (sort less xs)

module _ {ℓ} {A : Type ℓ} where
  pub Memᴰ-of_Permᴰ : {a : A} {xs ys : List A} → Permᴰ xs ys → Memᴰ a xs → Memᴰ a ys
  Memᴰ-of_Permᴰ (Permᴰ.nil) m = m
  Memᴰ-of_Permᴰ (Permᴰ.cons e p) (Memᴰ.head q) = Memᴰ.head (q ∙ e)
  Memᴰ-of_Permᴰ (Permᴰ.cons e p) (Memᴰ.tail m) = Memᴰ.tail (Memᴰ-of_Permᴰ p m)
  Memᴰ-of_Permᴰ (Permᴰ.swap e f) (Memᴰ.head q) = Memᴰ.tail (Memᴰ.head (q ∙ e))
  Memᴰ-of_Permᴰ (Permᴰ.swap e f) (Memᴰ.tail (Memᴰ.head q)) = Memᴰ.head (q ∙ f)
  Memᴰ-of_Permᴰ (Permᴰ.swap e f) (Memᴰ.tail (Memᴰ.tail m)) = Memᴰ.tail (Memᴰ.tail m)
  Memᴰ-of_Permᴰ (Permᴰ.trans p q) m = Memᴰ-of_Permᴰ q (Memᴰ-of_Permᴰ p m)

  pub All-Memᴰ {κ} : (P : A → Type κ) {a : A} (xs : List A) → All P xs → Memᴰ a xs → P a
  All-Memᴰ P [] h m = elim m [ ]
  All-Memᴰ P (x ∷ xs) h (Memᴰ.head e) = subst P (sym e) h.0
  All-Memᴰ P (x ∷ xs) h (Memᴰ.tail m) = All-Memᴰ P xs h.1 m

module _ {ℓ κ} {A : Type ℓ} (P : A → Type κ) where
  pub Memᴰ-All : (xs : List A) → ((x : A) → Memᴰ x xs → P x) → All P xs
  Memᴰ-All [] h = tt
  Memᴰ-All (x ∷ xs) h = (h x (Memᴰ.head refl), Memᴰ-All xs (λ y m. h y (Memᴰ.tail m)))

pub nothing-Memᴰ {ℓ} : {A : Type ℓ} {x : A} → Memᴰ x [] → ⊥
nothing-Memᴰ m = elim m [ ]

-- The first element of a sorted list is one of the list's, and none is less.
module _ (sorter : Sorter) {A : Type 0} (less : A → A → Bool) (order : StrictWeak less) where
  pub sort-head : (xs : List A) {x : A} {rest : List A} → sorter.sort less xs ≡ x ∷ rest → Memᴰ x xs
  sort-head xs {x} {rest} e =
      Memᴰ-of_Permᴰ (sorter.sort-perm less xs) (subst (Memᴰ x) (sym e) (Memᴰ.head refl))

  pub sort_min :
      (xs : List A) {x y : A} {rest : List A}
      → sorter.sort less xs ≡ x ∷ rest
      → Memᴰ y xs
      → less y x ≡ false
  sort_min xs {x} {y} {rest} e m =
      least (subst (Memᴰ y) e (Memᴰ-of_Permᴰ (Permᴰ.symm (sorter.sort-perm less xs)) m))
        (subst (Sorted less) e (sorter.sort-Sorted less xs order))
    where
      least : Memᴰ y (x ∷ rest) → Sorted less (x ∷ rest) → less y x ≡ false
      least (Memᴰ.head q) s = rw q (order.irreflexive x)
      least (Memᴰ.tail n) s = All-Memᴰ (λ z. less z x ≡ false) rest s.0 n

-- By a first key, and where that leaves two elements equal by a second order.
pub lexicographic-StrictWeak {ℓ κ} :
    {A : Type ℓ} {K : Type κ} (key : A → K) (lt eq : K → K → Bool) (second : A → A → Bool)
    → StrictWeak lt
    → ((a b : K) → (eq a b ≡ true) ↔ ((lt a b ≡ false) × (lt b a ≡ false)))
    → StrictWeak second
    → StrictWeak (λ (a b : A). if eq (key a) (key b) then second a b else lt (key a) (key b))
lexicographic-StrictWeak key lt eq second w e s = record {
  irreflexive = λ a. ground (arith, e (key a) (key a), w.irreflexive (key a), s.irreflexive a);
  transitive = λ a b c h k. ground (
    arith,
    e (key a) (key b),
    e (key b) (key c),
    e (key a) (key c),
    w.transitive (key a) (key b) (key c),
    w.comparable (key a) (key b) (key c),
    w.comparable (key c) (key b) (key a),
    w.comparable (key b) (key a) (key c),
    w.comparable (key a) (key c) (key b),
    w.comparable (key c) (key a) (key b),
    w.comparable (key b) (key c) (key a),
    s.transitive a b c,
  );
  comparable = λ a b c h k. ground (
    arith,
    e (key a) (key b),
    e (key b) (key c),
    e (key a) (key c),
    w.transitive (key a) (key b) (key c),
    w.comparable (key a) (key b) (key c),
    w.comparable (key c) (key b) (key a),
    w.comparable (key b) (key a) (key c),
    w.comparable (key a) (key c) (key b),
    w.comparable (key c) (key a) (key b),
    w.comparable (key b) (key c) (key a),
    s.comparable a b c,
  );
}
