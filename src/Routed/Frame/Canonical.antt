-- ===== src/Routed/Frame/Canonical.antt =====
-- The wire format of internal/routed/frame.go has one encoding for each frame.
use bpc.Base.{
  ℕ, zero, suc, ◌%◌, ◌≤◌, ◌<◌, List, [], ◌∷◌, ◌++◌, length, get_or, take, drop, Bytes, put_be, ok,
  All, ◌≡◌, refl, arith, ap, bytes_eq_iff, Result-cases, inl, inr, IsByte, put_be-be_pair, be_pair,
  take-append-drop, length-take, All-drop,
}
use mathlib.Core.List.{append_assoc}
use bpc.Routed.Frame.Valid.{validate_basic-Fits}
use bpc.Routed.Frame.{
  Frame, frame_magic, validate_basic, put_hops, frame_bytes, flags_of, marshal_frame, read_hops,
  read_tail, read_owner, unmarshal_frame,
}

-- What a successful read of the hops has read.
record HopsRead (n : ℕ) (raw : Bytes) (r : List Bytes × Bytes) : Type 0 where
  bytes : raw ≡ put_hops r.0 ++ r.1
  count : length r.0 ≡ n

read_hops-HopsRead :
    (n : ℕ) (raw : Bytes) {r : List Bytes × Bytes} → read_hops n raw ≡ ok r → HopsRead n raw r
unfolding read_hops put_hops
read_hops-HopsRead zero raw h = ground arith
read_hops-HopsRead (suc n) [] h = cc
read_hops-HopsRead (suc n) (len ∷ rest) h = elim (Result-cases (read_hops n (drop len rest))) [
  | inl (q, e) ↦ ground (
    arith,
    read_hops-HopsRead n (drop len rest) e,
    take-append-drop len rest,
    length-take len rest,
    append_assoc (take len rest) (put_hops q.0) q.1,
  )
  | inr (x, e) ↦ ground arith
]

record TailRead (flags hop_index : ℕ) (path_id owner : Bytes) (hops : List Bytes) (rest : Bytes)
    (f : Frame) : Type 0 where
  flags_eq : flags ≡ flags_of f.is_return
  index_eq : hop_index ≡ f.hop_index
  path_eq : path_id ≡ f.path_id
  owner_eq : owner ≡ f.owner_node_id
  hops_eq : hops ≡ f.hops
  rest_eq : rest ≡ put_be 2 (length f.payload % 65536) ++ f.payload
  checked : validate_basic f ≡ ok tt

read_tail-TailRead :
    (flags hop_index : ℕ) (path_id owner : Bytes) (hops : List Bytes) (rest : Bytes) {f : Frame}
    → All IsByte rest
    → read_tail flags hop_index path_id owner hops rest ≡ ok f
    → TailRead flags hop_index path_id owner hops rest f
unfolding read_tail
read_tail-TailRead flags hop_index path_id owner hops [] bytes h = cc
read_tail-TailRead flags hop_index path_id owner hops (a ∷ []) bytes h = cc
read_tail-TailRead flags hop_index path_id owner hops (a ∷ b ∷ payload) bytes h =
    ground (arith, be_pair a b, put_be-be_pair a b)

All-suffix {ℓ κ} : {A : Type ℓ} (P : A → Type κ) (xs ys : List A) → All P (xs ++ ys) → All P ys
All-suffix P [] ys h = h
All-suffix P (x ∷ xs) ys h = All-suffix P xs ys h.1

-- What a successful read from the owner on has read.
record OwnerRead (flags hop_index hop_count : ℕ) (path_id rest : Bytes) (f : Frame) : Type 0 where
  flags_eq : flags ≡ flags_of f.is_return
  index_eq : hop_index ≡ f.hop_index
  count_eq : hop_count ≡ length f.hops
  path_eq : path_id ≡ f.path_id
  rest_eq :
      rest
      ≡ (length f.owner_node_id % 256) ∷ f.owner_node_id
        ++ (put_hops f.hops ++ (put_be 2 (length f.payload % 65536) ++ f.payload))
  checked : validate_basic f ≡ ok tt

-- What the tests of a successful read from the owner on have let through.
record OwnerTests (flags hop_index hop_count : ℕ) (path_id : Bytes) (len : ℕ) (rest : Bytes)
    (f : Frame) : Type 0 where
  len_le : len ≤ 128
  len_fits : len ≤ length rest
  hops : List Bytes
  tail : Bytes
  hops_read : read_hops hop_count (drop len rest) ≡ ok (hops, tail)
  tail_read : read_tail flags hop_index path_id (take len rest) hops tail ≡ ok f

read_owner-OwnerTests :
    (flags hop_index hop_count : ℕ) (path_id : Bytes) (len : ℕ) (rest : Bytes) {f : Frame}
    → read_owner flags hop_index hop_count path_id (len ∷ rest) ≡ ok f
    → OwnerTests flags hop_index hop_count path_id len rest f
unfolding read_owner
read_owner-OwnerTests flags hop_index hop_count path_id len rest h =
    elim (Result-cases (read_hops hop_count (drop len rest))) [
      | inl (r, e) ↦ record {
        len_le = ground arith;
        len_fits = ground arith;
        hops = r.0;
        tail = r.1;
        hops_read = e;
        tail_read = ground arith;
      }
      | inr (x, e) ↦ absurd (ground arith)
    ]

read_owner-OwnerRead :
    (flags hop_index hop_count : ℕ) (path_id rest : Bytes) {f : Frame}
    → All IsByte rest
    → read_owner flags hop_index hop_count path_id rest ≡ ok f
    → OwnerRead flags hop_index hop_count path_id rest f
read_owner-OwnerRead flags hop_index hop_count path_id [] bytes h = unfold read_owner in cc
read_owner-OwnerRead flags hop_index hop_count path_id (len ∷ rest) {f = f} bytes h =
    let o = read_owner-OwnerTests flags hop_index hop_count path_id len rest h in
    let r = read_hops-HopsRead hop_count (drop len rest) o.hops_read in
    let unread : All IsByte o.tail =
      All-suffix IsByte (put_hops o.hops) o.tail
        (rw r.bytes at (All-drop IsByte len rest bytes.1)) in
    let t =
      read_tail-TailRead flags hop_index path_id (take len rest) o.hops o.tail unread o.tail_read in
    let size : length (take len rest) ≡ len = omega (arith, length-take len rest, o.len_fits) in
    let short : len % 256 ≡ len = omega (arith, o.len_le) in
    record {
      flags_eq = t.flags_eq;
      index_eq = t.index_eq;
      count_eq = cc (r.count, t.hops_eq);
      path_eq = t.path_eq;
      rest_eq =
          cc (size, short, t.owner_eq, t.hops_eq, t.rest_eq, r.bytes, take-append-drop len rest);
      checked = t.checked;
    }

header_split :
    (raw : Bytes)
    → 8 ≤ length raw
    → raw
      ≡ take 4 raw
        ++ (get_or raw 4 0 ∷ get_or raw 5 0 ∷ get_or raw 6 0 ∷ get_or raw 7 0 ∷ drop 8 raw)
header_split (a ∷ b ∷ c ∷ d ∷ e ∷ f ∷ g ∷ h ∷ rest) le = refl
header_split _ le = absurd (omega arith)

-- What the tests of `UnmarshalFrame` on the header have let through.
record HeaderTests (raw : Bytes) (f : Frame) : Type 0 where
  long : 12 ≤ length raw
  magic : take 4 raw ≡ frame_magic
  path_le : get_or raw 7 0 ≤ 64
  path_fits : get_or raw 7 0 < length (drop 8 raw)
  owner_read :
      read_owner
        (get_or raw 4 0)
        (get_or raw 5 0)
        (get_or raw 6 0)
        (take (get_or raw 7 0) (drop 8 raw))
        (drop (get_or raw 7 0) (drop 8 raw))
      ≡ ok f

unmarshal-HeaderTests : (raw : Bytes) {f : Frame} → unmarshal_frame raw ≡ ok f → HeaderTests raw f
unfolding unmarshal_frame
unmarshal-HeaderTests raw h = record {
  long = ground arith;
  magic = ground (arith, bytes_eq_iff (take 4 raw) frame_magic);
  path_le = ground arith;
  path_fits = ground arith;
  owner_read = ground arith;
}

unmarshal-frame_bytes :
    (raw : Bytes) {f : Frame}
    → All IsByte raw
    → unmarshal_frame raw ≡ ok f
    → (frame_bytes f ≡ raw) × (validate_basic f ≡ ok tt)
unfolding frame_bytes
unmarshal-frame_bytes raw {f = f} bytes h =
    let t = unmarshal-HeaderTests raw h in
    let unread = All-drop IsByte (get_or raw 7 0) (drop 8 raw) (All-drop IsByte 8 raw bytes) in
    let o =
      read_owner-OwnerRead (get_or raw 4 0) (get_or raw 5 0) (get_or raw 6 0)
        (take (get_or raw 7 0) (drop 8 raw)) (drop (get_or raw 7 0) (drop 8 raw)) unread
        t.owner_read in
    let fits = validate_basic-Fits f o.checked in
    let index : f.hop_index % 256 ≡ get_or raw 5 0 = omega (arith, fits, o.index_eq) in
    let count : length f.hops % 256 ≡ get_or raw 6 0 = omega (arith, fits, o.count_eq) in
    let path : length f.path_id % 256 ≡ get_or raw 7 0 =
      omega (arith, fits, t, length-take (get_or raw 7 0) (drop 8 raw), ap length o.path_eq) in
    (
      cc (
        header_split raw (omega (arith, t.long)),
        t.magic,
        index,
        count,
        path,
        o.flags_eq,
        o.path_eq,
        o.rest_eq,
        take-append-drop (get_or raw 7 0) (drop 8 raw),
      ),
      o.checked,
    )

-- A byte string that is read as a frame is the one that the frame is written as.
pub marshal-unmarshal :
    (raw : Bytes) {f : Frame}
    → All IsByte raw
    → unmarshal_frame raw ≡ ok f
    → marshal_frame f ≡ ok raw
unfolding marshal_frame
marshal-unmarshal raw bytes h =
    let (written, checked) = unmarshal-frame_bytes raw bytes h in rw (checked, written)
