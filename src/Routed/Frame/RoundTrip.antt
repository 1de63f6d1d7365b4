-- ===== src/Routed/Frame/RoundTrip.antt =====
-- The wire format of internal/routed/frame.go, both ways.
use bpc.Base.{
  ℕ, ◌%◌, List, [], ◌∷◌, ◌++◌, length, Bytes, put_be, ok, All, ◌≡◌, refl, arith, take_all, drop_all,
  length-append, length-put_be, be-put_be, bytes_eq_refl, Result-cases, Bool-cases, take_prefix,
  drop_prefix, inl, inr,
}
use mathlib.Core.List.{append_assoc}
use bpc.Routed.Frame.Valid.{
  FitsHop, Fits, IsValid, validate_basic_iff, validate_basic-Fits, check_hops-FitsHop,
}
use bpc.Routed.Frame.{
  Frame, frame_magic, validate_basic, put_hops, frame_bytes, flags_of, marshal_frame, read_hops,
  read_tail, read_owner, unmarshal_frame,
}

read_hops-put_hops :
    (hops : List Bytes) (rest : Bytes)
    → All FitsHop hops
    → read_hops (length hops) (put_hops hops ++ rest) ≡ ok (hops, rest)
unfolding read_hops put_hops
read_hops-put_hops [] rest h = refl
read_hops-put_hops (hop ∷ hops) rest h =
    let fits : length hop % 256 ≡ length hop = omega arith in
    let tail = put_hops hops ++ rest in
    rw
      (
        fits,
        append_assoc hop (put_hops hops) rest,
        take_all hop tail,
        drop_all hop tail,
        read_hops-put_hops hops rest h.1,
      )
      (ground (arith, length-append hop tail))

-- The tail of a frame: payload length and payload.
read_tail-frame :
    (f : Frame)
    → validate_basic f ≡ ok tt
    → read_tail
        (flags_of f.is_return)
        (f.hop_index % 256)
        f.path_id
        f.owner_node_id
        f.hops
        (put_be 2 (length f.payload % 65536) ++ f.payload)
      ≡ ok f
unfolding read_tail
read_tail-frame f h =
    let fits = validate_basic-Fits f h in
    let size : length f.payload % 65536 ≡ length f.payload = omega arith in
    let index : f.hop_index % 256 ≡ f.hop_index = omega arith in
    let field = put_be 2 (length f.payload) in
    let two = length-put_be 2 (length f.payload) in
    rw
      (
        size,
        index,
        take_prefix 2 field f.payload two,
        drop_prefix 2 field f.payload two,
        be-put_be 2 (length f.payload) (omega arith),
      )
      (elim (Bool-cases f.is_return) [
        | inl e ↦ rw e (ground (arith, length-append field f.payload))
        | inr e ↦ rw e (ground (arith, length-append field f.payload))
      ])

read_owner-frame :
    (flags hop_index : ℕ) (f : Frame) (rest : Bytes)
    → Fits f
    → read_owner flags hop_index
        (length f.hops % 256)
        f.path_id
        ((length f.owner_node_id % 256) ∷ f.owner_node_id ++ (put_hops f.hops ++ rest))
      ≡ read_tail flags hop_index f.path_id f.owner_node_id f.hops rest
unfolding read_owner
read_owner-frame flags hop_index f rest fits =
    let owner : length f.owner_node_id % 256 ≡ length f.owner_node_id = omega arith in
    let count : length f.hops % 256 ≡ length f.hops = omega arith in
    let tail = put_hops f.hops ++ rest in
    rw
      (
        owner,
        count,
        take_all f.owner_node_id tail,
        drop_all f.owner_node_id tail,
        read_hops-put_hops f.hops rest (check_hops-FitsHop [] f.hops fits.hops_ok),
      )
      (ground (arith, length-append f.owner_node_id tail))

unmarshal-frame_bytes :
    (f : Frame) → validate_basic f ≡ ok tt → unmarshal_frame (frame_bytes f) ≡ ok f
unfolding unmarshal_frame frame_bytes
unmarshal-frame_bytes f h =
    let fits = validate_basic-Fits f h in
    let path : length f.path_id % 256 ≡ length f.path_id = omega arith in
    let owner = (length f.owner_node_id % 256) ∷ f.owner_node_id in
    let field = put_be 2 (length f.payload % 65536) ++ f.payload in
    let tail = owner ++ (put_hops f.hops ++ field) in
    rw
      (
        path,
        take_all f.path_id tail,
        drop_all f.path_id tail,
        read_owner-frame (flags_of f.is_return) (f.hop_index % 256) f field fits,
        read_tail-frame f h,
      )
      (ground (
        arith,
        bytes_eq_refl frame_magic,
        length-append f.path_id tail,
        length-append f.owner_node_id (put_hops f.hops ++ field),
        length-append (put_hops f.hops) field,
        length-append (put_be 2 (length f.payload % 65536)) f.payload,
        length-put_be 2 (length f.payload % 65536),
      ))

-- A valid frame marshals.
pub IsValid-marshal : (f : Frame) → IsValid f → (raw : Bytes) × (marshal_frame f ≡ ok raw)
unfolding marshal_frame
IsValid-marshal f v = (frame_bytes f, rw ((validate_basic_iff f).1 v) refl)

-- A frame that marshals is read back as it was, whatever bytes its strings hold.
pub unmarshal-marshal :
    (f : Frame) (raw : Bytes) → marshal_frame f ≡ ok raw → unmarshal_frame raw ≡ ok f
unfolding marshal_frame
unmarshal-marshal f raw h = elim (Result-cases (validate_basic f)) [
  | inl (u, e) ↦ ground (arith, unmarshal-frame_bytes f)
  | inr (x, e) ↦ cc
]
