-- ===== src/Routed/Frame.antt =====
-- internal/routed/frame.go: the routed frame, its validation and its wire format.
-- A cursor into `raw` is the list of the bytes that are still unread.
pub mod Valid
pub mod RoundTrip
pub mod Canonical
mod Tests
use bpc.Base.{
  ℕ, zero, suc, ◌+◌, ◌-◌, ◌*◌, ◌/◌, ◌%◌, Bool, true, false, not, ◌&&◌, ◌||◌, List, [], ◌∷◌, ◌++◌,
  ltb, leb, ◌==◌, if◌then◌else◌, length, get_or, take, drop, Bytes, bytes_eq, has, be, put_be,
  Result, ok, err, ◌>>=◌, ◌>>◌, fail_if,
}

-- 'B', 'P', 'R', '1'
abbrev pub frame_magic : Bytes
frame_magic = b'B' ∷ b'P' ∷ b'R' ∷ b'1' ∷ []

abbrev pub frame_flag_return : ℕ
frame_flag_return = 1

abbrev pub max_path_hops : ℕ
max_path_hops = 3

-- `hop_index` is an int that only a byte or an increment of one ever sets, so it is not negative.
pub record Frame : Type 0 where
  pub path_id : Bytes
  pub owner_node_id : Bytes
  pub hops : List Bytes
  pub hop_index : ℕ
  pub is_return : Bool
  pub payload : Bytes

-- One constructor for each message of `ValidateBasic`, `MarshalFrame` and `UnmarshalFrame`.
pub data FrameError : Type 0 where
  invalid_path_id_length invalid_route_owner invalid_hop_count invalid_hop_index : FrameError
  invalid_hop_id routing_loop bad_return_origin bad_forward_end bad_inner_length : FrameError
  invalid_header invalid_path_field invalid_owner_field invalid_count_field : FrameError
  truncated_hop invalid_hop_field truncated_payload_length invalid_payload_length : FrameError
  unsupported_flags : FrameError

-- The loop of `ValidateBasic` over the hops, with the set `seen`.
unfoldable pub check_hops : List Bytes → List Bytes → Result FrameError (Unit {0})
check_hops seen [] = ok tt
check_hops seen (hop ∷ hops) = do
  fail_if (length hop == 0 || ltb 128 (length hop)) invalid_hop_id
  fail_if (has hop seen) routing_loop
  check_hops (hop ∷ seen) hops

-- `Hops[0]` and `Hops[len-1]` are read behind the check of the hop count.
unfoldable pub check_ends : Frame → Result FrameError (Unit {0})
check_ends f =
    if f.is_return
    then fail_if (not (bytes_eq (get_or f.hops 0 []) f.owner_node_id)) bad_return_origin
    else fail_if (not (bytes_eq (get_or f.hops (length f.hops - 1) []) f.owner_node_id))
        bad_forward_end

unfoldable pub validate_basic : Frame → Result FrameError (Unit {0})
validate_basic f = do
  fail_if (length f.path_id == 0 || ltb 64 (length f.path_id)) invalid_path_id_length
  fail_if (length f.owner_node_id == 0 || ltb 128 (length f.owner_node_id)) invalid_route_owner
  fail_if (ltb (length f.hops) 2 || ltb max_path_hops (length f.hops)) invalid_hop_count
  fail_if (leb f.hop_index 0 || leb (length f.hops) f.hop_index) invalid_hop_index
  check_hops [] f.hops
  check_ends f
  fail_if (length f.payload == 0 || ltb 65535 (length f.payload)) bad_inner_length

-- A length byte and the string.
abbrev put_string : Bytes → Bytes
put_string s = (length s % 256) ∷ s

put_hops : List Bytes → Bytes
put_hops [] = []
put_hops (hop ∷ hops) = put_string hop ++ put_hops hops

abbrev flags_of : Bool → ℕ
flags_of is_return = if is_return then frame_flag_return else 0

frame_bytes : Frame → Bytes
unfolding put_hops
frame_bytes f =
    frame_magic
    ++ (flags_of f.is_return ∷ (f.hop_index % 256) ∷ (length f.hops % 256) ∷ put_string f.path_id
        ++ (put_string f.owner_node_id
            ++ (put_hops f.hops ++ (put_be 2 (length f.payload % 65536) ++ f.payload))))

unfoldable pub marshal_frame : Frame → Result FrameError Bytes
unfolding frame_bytes
marshal_frame f = do validate_basic f; ok (frame_bytes f)

-- `for range hopCount`: reads the hops, and returns what is unread.
read_hops : ℕ → Bytes → Result FrameError (List Bytes × Bytes)
read_hops zero rest = ok ([], rest)
read_hops (suc n) [] = err truncated_hop
read_hops (suc n) (len ∷ rest) = do
  fail_if (len == 0 || ltb 128 len || ltb (length rest) len) invalid_hop_field
  r ← read_hops n (drop len rest)
  ok (take len rest ∷ r.0, r.1)

-- From the payload length on. `flags &^ 1` is what `flags` holds above its lowest bit.
read_tail : ℕ → ℕ → Bytes → Bytes → List Bytes → Bytes → Result FrameError Frame
read_tail flags hop_index path_id owner hops rest = do
  fail_if (ltb (length rest) 2) truncated_payload_length
  let payload_len = be (take 2 rest)
  let payload = drop 2 rest
  fail_if (payload_len == 0 || not (payload_len == length payload)) invalid_payload_length
  fail_if (not (flags / 2 * 2 == 0)) unsupported_flags
  let frame : Frame = record {
    path_id = path_id;
    owner_node_id = owner;
    hops = hops;
    hop_index = hop_index;
    is_return = flags % 2 == 1;
    payload = payload;
  }
  validate_basic frame
  ok frame

read_owner : ℕ → ℕ → ℕ → Bytes → Bytes → Result FrameError Frame
unfolding read_hops read_tail
read_owner flags hop_index hop_count path_id rest = do
  let owner_len = get_or rest 0 0
  let rest1 = drop 1 rest
  fail_if (owner_len == 0 || ltb 128 owner_len || ltb (length rest1) owner_len) invalid_owner_field
  fail_if (ltb hop_count 2 || ltb max_path_hops hop_count) invalid_count_field
  r ← read_hops hop_count (drop owner_len rest1)
  read_tail flags hop_index path_id (take owner_len rest1) r.0 r.1

unfoldable pub unmarshal_frame : Bytes → Result FrameError Frame
unfolding read_owner
unmarshal_frame raw = do
  fail_if (ltb (length raw) 12 || not (bytes_eq (take 4 raw) frame_magic)) invalid_header
  let path_len = get_or raw 7 0
  let rest = drop 8 raw
  fail_if (path_len == 0 || ltb 64 path_len || ltb (length rest) (path_len + 1)) invalid_path_field
  read_owner (get_or raw 4 0) (get_or raw 5 0) (get_or raw 6 0) (take path_len rest)
      (drop path_len rest)
