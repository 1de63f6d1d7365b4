-- ===== src/Routed/Frame/Tests.antt =====
-- Runs of internal/routed/frame.go, and its theorems at concrete inputs.
use bpc.Base.{
  false, [], ◌∷◌, Bytes, codes, bytes_eq, has, be, put_be, ok, err, ◌≡◌, ◌↔◌, refl, arith,
}
use bpc.Routed.Frame.{
  Frame, invalid_header, check_hops, check_ends, validate_basic, marshal_frame, unmarshal_frame,
}
use bpc.Routed.Frame.Valid.{IsValid, validate_basic_iff}
use bpc.Routed.Frame.RoundTrip.{unmarshal-marshal}
use bpc.Routed.Frame.Canonical.{marshal-unmarshal}

abbrev hello : Frame
hello = record {
  path_id = codes "p1";
  owner_node_id = codes "n2";
  hops = codes "n1" ∷ codes "n2" ∷ [];
  hop_index = 1;
  is_return = false;
  payload = 7 ∷ 8 ∷ 9 ∷ [];
}

abbrev hello_bytes : Bytes
hello_bytes =
    b'B' ∷ b'P' ∷ b'R' ∷ b'1' ∷ 0 ∷ 1 ∷ 2 ∷ 2 ∷ b'p' ∷ b'1' ∷ 2 ∷ b'n' ∷ b'2' ∷ 2 ∷ b'n' ∷ b'1' ∷ 2
    ∷ b'n' ∷ b'2' ∷ 0 ∷ 3 ∷ 7 ∷ 8 ∷ 9 ∷ []

hello_marshals : marshal_frame hello ≡ ok hello_bytes
unfolding marshal_frame validate_basic check_hops check_ends bytes_eq has put_be
hello_marshals = refl

hello_unmarshals : unmarshal_frame hello_bytes ≡ ok hello
unfolding unmarshal_frame validate_basic check_hops check_ends bytes_eq has be
hello_unmarshals = refl

short_is_refused : unmarshal_frame (b'B' ∷ b'P' ∷ b'R' ∷ b'1' ∷ []) ≡ err invalid_header
unfolding unmarshal_frame
short_is_refused = refl

unmarshal-marshal_example : unmarshal_frame hello_bytes ≡ ok hello
unmarshal-marshal_example = unmarshal-marshal hello hello_bytes hello_marshals

marshal-unmarshal_example : marshal_frame hello ≡ ok hello_bytes
marshal-unmarshal_example = marshal-unmarshal hello_bytes (omega arith) hello_unmarshals

validate_basic_iff_example : (validate_basic hello ≡ ok tt) ↔ IsValid hello
validate_basic_iff_example = validate_basic_iff hello
