-- ===== src/Routed/Frame/Valid.antt =====
-- `ValidateBasic` of internal/routed/frame.go against a description of the valid frames.
use bpc.Base.{
  ◌-◌, ◌≤◌, ◌<◌, true, false, List, [], ◌∷◌, length, get_or, get_elem?, get_elem?-get_or, Bytes,
  has, some, ok, All, ◌≡◌, ◌≢◌, ◌↔◌, refl, arith, Bool-cases, inl, inr, bytes_eq_iff, has-cons,
  has-nil, ne-bytes_eq, bytes_eq-ne,
}
use bpc.Routed.Frame.{Frame, check_hops, check_ends, validate_basic}

abbrev pub FitsHop : Bytes → Type 0
FitsHop hop = (0 < length hop) × (length hop ≤ 128)

pub record Fits (f : Frame) : Type 0 where
  pub path_pos : 0 < length f.path_id
  pub path_le : length f.path_id ≤ 64
  pub owner_pos : 0 < length f.owner_node_id
  pub owner_le : length f.owner_node_id ≤ 128
  pub hops_ge : 2 ≤ length f.hops
  pub hops_le : length f.hops ≤ 3
  pub index_lt : f.hop_index < length f.hops
  pub payload_pos : 0 < length f.payload
  pub payload_le : length f.payload ≤ 65535
  pub index_pos : 0 < f.hop_index
  pub ends_ok : check_ends f ≡ ok tt
  pub hops_ok : check_hops [] f.hops ≡ ok tt

pub validate_basic-Fits : (f : Frame) → validate_basic f ≡ ok tt → Fits f
unfolding validate_basic
validate_basic-Fits f h = ground arith

pub check_hops-FitsHop : (seen hops : List Bytes) → check_hops seen hops ≡ ok tt → All FitsHop hops
unfolding check_hops
check_hops-FitsHop seen [] h = tt
check_hops-FitsHop seen (hop ∷ hops) h = ground (arith, check_hops-FitsHop (hop ∷ seen) hops)

-- No two hops are the same.
abbrev pub Distinct : List Bytes → Type 0
Distinct [] = Unit
Distinct (x ∷ xs) = All (λ y. y ≢ x) xs × Distinct xs

abbrev Unseen : List Bytes → List Bytes → Type 0
Unseen seen hops = All (λ hop. has hop seen ≡ false) hops

Unseen-cons :
    (x : Bytes) (seen hops : List Bytes)
    → Unseen (x ∷ seen) hops
    → Unseen seen hops × All (λ y. y ≢ x) hops
Unseen-cons x seen [] h = (tt, tt)
Unseen-cons x seen (y ∷ ys) h =
    let (unseen, differ) = Unseen-cons x seen ys h.1 in
    let split = has-cons y x seen in
    ((ground (arith, h.0, split), unseen), (bytes_eq-ne y x (ground (arith, h.0, split)), differ))

cons-Unseen :
    (x : Bytes) (seen hops : List Bytes)
    → Unseen seen hops
    → All (λ y. y ≢ x) hops
    → Unseen (x ∷ seen) hops
cons-Unseen x seen [] h d = tt
cons-Unseen x seen (y ∷ ys) h d =
    (rw (has-cons y x seen, ne-bytes_eq y x d.0) h.0, cons-Unseen x seen ys h.1 d.1)

check_hops-Distinct :
    (seen hops : List Bytes) → check_hops seen hops ≡ ok tt → Unseen seen hops × Distinct hops
unfolding check_hops
check_hops-Distinct seen [] h = (tt, tt)
check_hops-Distinct seen (hop ∷ hops) h =
    let (unseen, distinct) = check_hops-Distinct (hop ∷ seen) hops (ground arith) in
    let (later, differ) = Unseen-cons hop seen hops unseen in
    ((ground arith, later), (differ, distinct))

check_hops_ok :
    (seen hops : List Bytes)
    → All FitsHop hops
    → Unseen seen hops
    → Distinct hops
    → check_hops seen hops ≡ ok tt
unfolding check_hops
check_hops_ok seen [] f u d = refl
check_hops_ok seen (hop ∷ hops) f u d =
    let rest = check_hops_ok (hop ∷ seen) hops f.1 (cons-Unseen hop seen hops u.1 d.0) d.1 in
    ground (arith, rest, f.0, u.0)

All-has-nil : (hops : List Bytes) → Unseen [] hops
All-has-nil [] = tt
All-has-nil (hop ∷ hops) = (has-nil hop, All-has-nil hops)

-- The owner is where a return frame begins and where a forward frame ends.
pub data OwnerEnd (f : Frame) : Type 0 where
  origin : f.is_return ≡ true → get_elem? f.hops 0 ≡ some f.owner_node_id → OwnerEnd f
  end :
      f.is_return ≡ false → get_elem? f.hops (length f.hops - 1) ≡ some f.owner_node_id → OwnerEnd f

-- A valid frame, described without the code: bounded lengths, a loop-free hop list of two or three
-- Nodes with the receiver behind the first, and the route owner at the end it must stand at.
pub record IsValid (f : Frame) : Type 0 where
  pub path_size : (0 < length f.path_id) × (length f.path_id ≤ 64)
  pub owner_size : (0 < length f.owner_node_id) × (length f.owner_node_id ≤ 128)
  pub hop_count : (2 ≤ length f.hops) × (length f.hops ≤ 3)
  pub receiver : (0 < f.hop_index) × (f.hop_index < length f.hops)
  pub hop_sizes : All FitsHop f.hops
  pub no_loop : Distinct f.hops
  pub owner_end : OwnerEnd f
  pub payload_size : (0 < length f.payload) × (length f.payload ≤ 65535)

check_ends_iff : (f : Frame) → 2 ≤ length f.hops → (check_ends f ≡ ok tt) ↔ OwnerEnd f
unfolding check_ends
check_ends_iff f h =
    let first = get_elem?-get_or f.hops 0 [] (omega arith) in
    let last = get_elem?-get_or f.hops (length f.hops - 1) [] (omega arith) in
    let first_eq = bytes_eq_iff (get_or f.hops 0 []) f.owner_node_id in
    let last_eq = bytes_eq_iff (get_or f.hops (length f.hops - 1) []) f.owner_node_id in
    (
      λ e. elim (Bool-cases f.is_return) [
        | inl back ↦ origin back (ground arith)
        | inr forth ↦ end forth (ground arith)
      ],
      λ o. elim o [ origin back e ↦ ground arith | end forth e ↦ ground arith ],
    )

validate_basic-IsValid : (f : Frame) → validate_basic f ≡ ok tt → IsValid f
validate_basic-IsValid f h =
    let t = validate_basic-Fits f h in
    record {
      path_size = (t.path_pos, t.path_le);
      owner_size = (t.owner_pos, t.owner_le);
      hop_count = (t.hops_ge, t.hops_le);
      receiver = (t.index_pos, t.index_lt);
      hop_sizes = check_hops-FitsHop [] f.hops t.hops_ok;
      no_loop = (check_hops-Distinct [] f.hops t.hops_ok).1;
      owner_end = (check_ends_iff f t.hops_ge).0 t.ends_ok;
      payload_size = (t.payload_pos, t.payload_le);
    }

IsValid-validate_basic : (f : Frame) → IsValid f → validate_basic f ≡ ok tt
unfolding validate_basic
IsValid-validate_basic f v =
    rw
      (
        check_hops_ok [] f.hops v.hop_sizes (All-has-nil f.hops) v.no_loop,
        (check_ends_iff f v.hop_count.0).1 v.owner_end,
      )
      (ground arith)

-- `ValidateBasic` accepts exactly the valid frames.
pub validate_basic_iff : (f : Frame) → (validate_basic f ≡ ok tt) ↔ IsValid f
validate_basic_iff f = (validate_basic-IsValid f, IsValid-validate_basic f)
