-- ===== src/Wgshim/Codec/Opens.antt =====
-- Which packets `OpenTyped` of internal/wgshim/codec.go opens.
use bpc.Base.{
  ℕ, ◌+◌, ◌-◌, ◌≤◌, ◌<◌, ◌≡◌, ◌↔◌, true, false, not, ◌||◌, [], ◌∷◌, ◌++◌, suc, ltb, ◌==◌, length,
  length-take, take-append-drop, take, drop, All, Bytes, IsByte, be, put_be, put_be-be_pair,
  be_pair, some, ok, Bool-cases, Option-cases, inl, inr, refl, ◌∙◌, ap, arith,
}
use bpc.Wgshim.Codec.{
  Codec, supported, header_size, packet_aad, plaintext_of, read_plaintext, open_typed,
}
use bpc.Wgshim.Codec.Seals.{read-plaintext_of}

-- The cipher gives a plaintext of the payload out.
pub record Opened (c : Codec) (packet : Bytes) (packet_type : ℕ) (payload : Bytes) : Type 0 where
  pub padding : Bytes
  pub of_type : supported packet_type ≡ true
  pub payload_lt : length payload < 65536
  pub packet_ge : c.aead.nonce_size + c.aead.overhead + header_size ≤ length packet
  pub authentic :
      c.aead.open_sealed (take c.aead.nonce_size packet) (drop c.aead.nonce_size packet) packet_aad
      ≡ some (plaintext_of packet_type payload padding)

-- What a plaintext that is read is made of.
read_plaintext-shape :
    (plaintext : Bytes) (t : ℕ) (payload : Bytes)
    → All IsByte plaintext
    → read_plaintext plaintext ≡ ok (t, payload)
    → (padding : Bytes) × (plaintext ≡ plaintext_of t payload padding)
      × (supported t ≡ true)
      × (length payload < 65536)
unfolding read_plaintext plaintext_of
read_plaintext-shape [] t payload bytes h = absurd (ground arith)
read_plaintext-shape (v ∷ []) t payload bytes h = absurd (ground arith)
read_plaintext-shape (v ∷ y ∷ []) t payload bytes h = absurd (ground arith)
read_plaintext-shape (v ∷ y ∷ a ∷ []) t payload bytes h = absurd (ground arith)
read_plaintext-shape (v ∷ y ∷ a ∷ b ∷ rest) t payload bytes h =
    let n = be (a ∷ b ∷ []) in
    let small : n < 65536 = omega (arith, be_pair a b, bytes.1.1.0, bytes.1.1.1.0) in
    elim (Bool-cases (ltb (suc (suc (suc (suc (length rest))))) header_size || not (v == 1))) [
      | inl e ↦ absurd (ground arith)
      | inr e ↦ elim (Bool-cases (supported y)) [
        | inr f ↦ absurd (ground arith)
        | inl f ↦ elim (Bool-cases (ltb (suc (suc (suc (suc (length rest)))) - header_size) n)) [
          | inl g ↦ absurd (ground arith)
          | inr g ↦
              let same : take n rest ≡ payload = ground arith in
              let size : length payload ≡ n = rw (← same) (ground (arith, length-take n rest)) in
              let pair : put_be 2 (length payload) ≡ a ∷ b ∷ [] =
                rw size (put_be-be_pair a b bytes.1.1.0 bytes.1.1.1.0) in
              let back : payload ++ drop n rest ≡ rest = rw (← same) (take-append-drop n rest) in
              let version : v ≡ 1 = ground arith in
              let type_same : y ≡ t = ground arith in
              (
                drop n rest,
                rw (pair, back, version, type_same) refl,
                rw (← type_same) f,
                omega (arith, size, small),
              )
        ]
      ]
    ]

open_typed-Opened :
    (c : Codec) (packet : Bytes) (t : ℕ) (payload : Bytes)
    → ((plaintext : Bytes)
        → c.aead.open_sealed
            (take c.aead.nonce_size packet)
            (drop c.aead.nonce_size packet)
            packet_aad
          ≡ some plaintext
        → All IsByte plaintext)
    → open_typed c packet ≡ ok (t, payload)
    → Opened c packet t payload
unfolding open_typed
open_typed-Opened c packet t payload bytes h =
    let ns = c.aead.nonce_size in
    elim (Bool-cases (ltb (length packet) (ns + c.aead.overhead + header_size))) [
      | inl e ↦ absurd (ground arith)
      | inr e ↦
          elim (Option-cases (c.aead.open_sealed (take ns packet) (drop ns packet) packet_aad)) [
            | inl f ↦ absurd (ground arith)
            | inr (plaintext, f) ↦
                let (padding, shape, kind, small) =
                  read_plaintext-shape plaintext t payload (bytes plaintext f) (rw (e, f) at h) in
                record {
                  padding = padding;
                  of_type = kind;
                  payload_lt = small;
                  packet_ge = ground arith;
                  authentic = f ∙ ap some shape;
                }
          ]
    ]

Opened-open_typed :
    (c : Codec) (packet : Bytes) (t : ℕ) (payload : Bytes)
    → Opened c packet t payload
    → open_typed c packet ≡ ok (t, payload)
unfolding open_typed
Opened-open_typed c packet t payload o =
    let long : ltb (length packet) (c.aead.nonce_size + c.aead.overhead + header_size) ≡ false =
      ground (arith, o.packet_ge) in
    rw (long, o.authentic) (read-plaintext_of t payload o.padding o.of_type o.payload_lt)

-- `OpenTyped` opens exactly the packets that are long enough and that the cipher opens to a
-- plaintext of the version, a supported type and the payload's length, the payload, and padding, as
-- long as what the cipher opens is made of bytes.
pub open_typed_iff :
    (c : Codec) (packet : Bytes) (t : ℕ) (payload : Bytes)
    → ((plaintext : Bytes)
        → c.aead.open_sealed
            (take c.aead.nonce_size packet)
            (drop c.aead.nonce_size packet)
            packet_aad
          ≡ some plaintext
        → All IsByte plaintext)
    → (open_typed c packet ≡ ok (t, payload)) ↔ Opened c packet t payload
open_typed_iff c packet t payload bytes =
    (open_typed-Opened c packet t payload bytes, Opened-open_typed c packet t payload)
