-- ===== src/Routed/Window/History.antt =====
-- The replay window of internal/routed/mesh.go against a filter that keeps its whole history.
use Prim.Native.Nat.{max}
use bpc.Base.{
  ℕ, ◌+◌, ◌-◌, ◌≤◌, ◌<◌, Bool, true, false, not, ◌&&◌, ◌||◌, List, [], ◌∷◌, ltb, leb, ◌==◌,
  if◌then◌else◌, ◌≡◌, refl, ◌∙◌, sym, arith, Bool-cases, inl, inr,
}
use mathlib.Core.Path.{subst}
use bpc.Base.Bits.{test_bit, set_bit, shl, set_bit-test_bit, shl-test_bit, test_bit_one}
use bpc.Routed.Window.{Window, new_window, accept_sequence_locked, advance, after, answers}

-- The specification: a list of all accepted numbers.
elem : ℕ → List ℕ → Bool
elem s [] = false
elem s (x ∷ xs) = s == x || elem s xs

highest : List ℕ → ℕ
highest [] = 0
highest (x ∷ xs) = max x (highest xs)

-- A number is fresh if it is not zero, was not accepted, and is less than 64 behind the highest.
pub is_fresh : List ℕ → ℕ → Bool
is_fresh history s = not (s == 0) && (not (elem s history) && ltb (highest history) (s + 64))

pub record_fresh : List ℕ → ℕ → List ℕ
record_fresh history s = if is_fresh history s then s ∷ history else history

pub fresh_answers : List ℕ → List ℕ → List Bool
fresh_answers history [] = []
fresh_answers history (s ∷ ss) = is_fresh history s ∷ fresh_answers (record_fresh history s) ss

elem-le-highest : (s : ℕ) (xs : List ℕ) → elem s xs ≡ true → s ≤ highest xs
unfolding elem highest
elem-le-highest s [] h = cc
elem-le-highest s (x ∷ xs) h = ground (arith, elem-le-highest s xs)

-- The window holds the last 64 numbers of the history.
record Refines (w : Window) (history : List ℕ) : Type 0 where
  high : w.recv_high ≡ highest history
  bits :
      (d : ℕ) → d < 64 → d < w.recv_high → test_bit w.recv_mask d ≡ elem (w.recv_high - d) history

in_window :
    (w : Window) (history : List ℕ) (s : ℕ)
    → Refines w history
    → 0 < s
    → s ≤ w.recv_high
    → w.recv_high - s < 64
    → test_bit w.recv_mask (w.recv_high - s) ≡ elem s history
in_window w history s r pos le near =
    let back : w.recv_high - (w.recv_high - s) ≡ s = omega arith in
    rw back at (r.bits (w.recv_high - s) near (omega arith))

accept-is_fresh :
    (w : Window) (history : List ℕ) (s : ℕ)
    → Refines w history
    → (accept_sequence_locked w s).1 ≡ is_fresh history s
unfolding accept_sequence_locked is_fresh
accept-is_fresh w history s r =
    ground (arith, elem-le-highest s history, in_window w history s, r.high)

elem-above : (s : ℕ) (xs : List ℕ) → highest xs < s → elem s xs ≡ false
elem-above s xs h = ground (arith, elem-le-highest s xs)

shifted_bits :
    (w : Window) (history : List ℕ) (s d : ℕ)
    → Refines w history
    → w.recv_high < s
    → d < 64
    → d < s
    → (leb (s - w.recv_high) d && test_bit w.recv_mask (d - (s - w.recv_high)))
      ≡ elem (s - d) history
shifted_bits w history s d r lt near low = elim (Bool-cases (leb (s - w.recv_high) d)) [
  | inl old ↦
      let shift = s - w.recv_high in
      let back : w.recv_high - (d - shift) ≡ s - d = ground arith in
      rw old (rw back at (r.bits (d - shift) (ground arith) (ground arith)))
  | inr new ↦ rw new (sym (elem-above (s - d) history (ground (arith, r.high))))
]

-- A new highest number, with a mask that shifts the old bits and sets the lowest.
advance-Refines :
    (w : Window) (history : List ℕ) (s : ℕ)
    → Refines w history
    → w.recv_high < s
    → Refines (advance w s) (s ∷ history)
unfolding advance elem highest
advance-Refines w history s r lt = record {
  high = omega (arith, r.high);
  bits = λ d near low. elim (Bool-cases (leb 64 (s - w.recv_high))) [
    | inl far ↦ rw (far, test_bit_one d) (ground (arith, elem-above (s - d) history, r.high))
    | inr close ↦
        rw
          (
            close,
            set_bit-test_bit (shl 64 w.recv_mask (s - w.recv_high)) 0 d,
            shl-test_bit 64 w.recv_mask (s - w.recv_high) d,
            shifted_bits w history s d r lt near low,
          )
          (ground arith)
  ];
}

first-Refines :
    (w : Window) (history : List ℕ) (s : ℕ)
    → Refines w history
    → w.recv_high ≡ 0
    → 0 < s
    → Refines (record { recv_high = s; recv_mask = 1 }) (s ∷ history)
unfolding elem highest
first-Refines w history s r empty pos = record {
  high = omega (arith, r.high);
  bits = λ d near low. rw (test_bit_one d) (ground (arith, elem-above (s - d) history, r.high));
}

look_back-Refines :
    (w : Window) (history : List ℕ) (s : ℕ)
    → Refines w history
    → s ≤ w.recv_high
    → Refines (record w { recv_mask = set_bit w.recv_mask (w.recv_high - s) }) (s ∷ history)
unfolding elem highest
look_back-Refines w history s r le = record {
  high = omega (arith, r.high);
  bits = λ d near low.
      rw (set_bit-test_bit w.recv_mask (w.recv_high - s) d, r.bits d near low) (ground arith);
}

-- The three ways to accept a number.
data Accepted (w : Window) (s : ℕ) (w' : Window) : Type 0 where
  first : w.recv_high ≡ 0 → w' ≡ record { recv_high = s; recv_mask = 1 } → Accepted w s w'
  newer : w.recv_high < s → w' ≡ advance w s → Accepted w s w'
  older :
      s ≤ w.recv_high
      → w' ≡ record w { recv_mask = set_bit w.recv_mask (w.recv_high - s) }
      → Accepted w s w'

accept-Accepted :
    (w : Window) (s : ℕ)
    → (accept_sequence_locked w s).1 ≡ true
    → (0 < s) × Accepted w s (accept_sequence_locked w s).0
unfolding accept_sequence_locked
accept-Accepted w s h = elim (Bool-cases (w.recv_high == 0)) [
  | inl empty ↦ (ground arith, first (ground arith) (ground arith))
  | inr kept ↦ elim (Bool-cases (ltb w.recv_high s)) [
    | inl above ↦ (ground arith, newer (ground arith) (ground arith))
    | inr below ↦ (ground arith, older (ground arith) (ground arith))
  ]
]

Accepted-Refines :
    {w : Window} {history : List ℕ} {s : ℕ} {w' : Window}
    → Refines w history
    → 0 < s
    → Accepted w s w'
    → Refines w' (s ∷ history)
Accepted-Refines {w} {history} {s} r pos (first empty e) =
    subst (λ v. Refines v (s ∷ history)) (sym e) (first-Refines w history s r empty pos)
Accepted-Refines {w} {history} {s} r pos (newer lt e) =
    subst (λ v. Refines v (s ∷ history)) (sym e) (advance-Refines w history s r lt)
Accepted-Refines {w} {history} {s} r pos (older le e) =
    subst (λ v. Refines v (s ∷ history)) (sym e) (look_back-Refines w history s r le)

refused_unchanged :
    (w : Window) (s : ℕ)
    → (accept_sequence_locked w s).1 ≡ false
    → (accept_sequence_locked w s).0 ≡ w
unfolding accept_sequence_locked
refused_unchanged w s h = ground arith

accept-Refines :
    (w : Window) (history : List ℕ) (s : ℕ)
    → Refines w history
    → Refines (accept_sequence_locked w s).0 (record_fresh history s)
unfolding record_fresh
accept-Refines w history s r =
    let same = accept-is_fresh w history s r in
    elim (Bool-cases (accept_sequence_locked w s).1) [
      | inl taken ↦
          let (pos, how) = accept-Accepted w s taken in
          rw (← same, taken) (Accepted-Refines r pos how)
      | inr refused ↦ rw (← same, refused, refused_unchanged w s refused) r
    ]

answers-fresh_answers :
    (w : Window) (history ss : List ℕ) → Refines w history → answers w ss ≡ fresh_answers history ss
unfolding answers fresh_answers
answers-fresh_answers w history [] r = refl
answers-fresh_answers w history (s ∷ ss) r = cc (
  accept-is_fresh w history s r,
  answers-fresh_answers (accept_sequence_locked w s).0 (record_fresh history s) ss
      (accept-Refines w history s r),
)

new_window-Refines : Refines new_window []
unfolding highest
new_window-Refines = record { high = refl; bits = λ d near low. absurd (omega arith) }

-- A new window answers every list of arrivals as the filter does that keeps the whole history:
-- it accepts a number exactly if the number is not zero, was not accepted before, and is less than
-- 64 behind the highest accepted one.
pub window-history : (ss : List ℕ) → answers new_window ss ≡ fresh_answers [] ss
window-history ss = answers-fresh_answers new_window [] ss new_window-Refines

after-Refines :
    (w : Window) (history ss : List ℕ)
    → Refines w history
    → (h : List ℕ) × Refines (after w ss) h × ((s : ℕ) → elem s history ≡ true → elem s h ≡ true)
unfolding after
after-Refines w history [] r = (history, r, λ s h. h)
after-Refines w history (s ∷ ss) r =
    let (h, r', keep) =
      after-Refines (accept_sequence_locked w s).0 (record_fresh history s) ss
        (accept-Refines w history s r) in
    (h, r', λ t e. keep t (kept history s t e))
  where
    kept :
        (history : List ℕ) (s t : ℕ)
        → elem t history ≡ true
        → elem t (record_fresh history s) ≡ true
    kept history s t e = unfold record_fresh elem in ground arith

-- Whatever arrives at a new window, a number that it accepts is refused ever after.
pub replay_refused :
    (before between : List ℕ) (s : ℕ)
    → (accept_sequence_locked (after new_window before) s).1 ≡ true
    → (accept_sequence_locked
        (after (accept_sequence_locked (after new_window before) s).0 between)
        s).1
      ≡ false
replay_refused before between s h =
    let (h0, r0, _) = after-Refines new_window [] before new_window-Refines in
    let w = after new_window before in
    let (pos, how) = accept-Accepted w s h in
    let (h1, r1, keep) =
      after-Refines (accept_sequence_locked w s).0 (s ∷ h0) between (Accepted-Refines r0 pos how) in
    accept-is_fresh _ h1 s r1 ∙ not_fresh s h1 (keep s (unfold elem in ground arith))
  where
    not_fresh : (s : ℕ) (h : List ℕ) → elem s h ≡ true → is_fresh h s ≡ false
    not_fresh s h e = unfold is_fresh in ground arith
