-- ===== src/Wgshim/Codec/Seals.antt =====
-- What internal/wgshim/codec.go seals, it opens; and the length of a sealed packet.
use bpc.Base.{
  ℕ, ◌+◌, ◌-◌, ◌≤◌, ◌<◌, ◌≡◌, true, false, not, ◌||◌, ◌∷◌, ◌++◌, ltb, length, length-append,
  take_prefix, drop_prefix, take_all, take, drop, Bytes, be, put_be, be-put_be, length-put_be, ok,
  Bool-cases, Option-cases, inl, inr, refl, arith,
}
use bpc.Wgshim.Codec.Draws.{
  IsCodec, random_padding-Range, random_padding_ends, read_full-length, read_full_ends,
  padding_bytes-length, padding_bytes_ends,
}
use bpc.Wgshim.Codec.{
  Codec, supported, max_inner_packet, header_size, packet_aad, plaintext_of, random_padding_length,
  read_full, padding_bytes, seal_type, read_plaintext, open_typed,
}

-- A packet of a payload.
pub record Sealed (c : Codec) (packet_type : ℕ) (payload packet : Bytes) : Type 0 where
  pub nonce : Bytes
  pub padding : Bytes
  pub of_type : supported packet_type ≡ true
  pub payload_le : length payload ≤ max_inner_packet
  pub nonce_size : length nonce ≡ c.aead.nonce_size
  pub padding_range : (c.padding_min ≤ length padding) × (length padding ≤ c.padding_max)
  pub is_packet :
      packet ≡ nonce ++ c.aead.seal nonce (plaintext_of packet_type payload padding) packet_aad

plaintext_length :
    (t : ℕ) (payload padding : Bytes)
    → length (plaintext_of t payload padding) ≡ header_size + length payload + length padding
unfolding plaintext_of
plaintext_length t payload padding = omega (
  arith,
  length-append (put_be 2 (length payload)) (payload ++ padding),
  length-put_be 2 (length payload),
  length-append payload padding,
)

Sealed-length :
    (c : Codec) (t : ℕ) (payload packet : Bytes) (s : Sealed c t payload packet)
    → length packet
      ≡ c.aead.nonce_size + header_size + length payload + length s.padding + c.aead.overhead
Sealed-length c t payload packet s =
    let plaintext = plaintext_of t payload s.padding in
    rw s.is_packet (
      omega (
        arith,
        length-append s.nonce (c.aead.seal s.nonce plaintext packet_aad),
        c.aead.length-seal s.nonce plaintext packet_aad s.nonce_size,
        plaintext_length t payload s.padding,
        s.nonce_size,
      ))

-- What is behind the header of a plaintext.
pub read-plaintext_of :
    (t : ℕ) (payload padding : Bytes)
    → supported t ≡ true
    → length payload < 65536
    → read_plaintext (plaintext_of t payload padding) ≡ ok (t, payload)
unfolding read_plaintext plaintext_of
read-plaintext_of t payload padding h small =
    let size = length payload in
    let rest = payload ++ padding in
    let number : be (take 2 (put_be 2 size ++ rest)) ≡ size =
      rw (take_prefix 2 (put_be 2 size) rest (length-put_be 2 size)) (be-put_be 2 size small) in
    let behind : drop 2 (put_be 2 size ++ rest) ≡ rest =
      drop_prefix 2 (put_be 2 size) rest (length-put_be 2 size) in
    let whole = plaintext_length t payload padding in
    let big : ltb (length (plaintext_of t payload padding)) header_size ≡ false =
      ground (arith, whole) in
    let enough : ltb (length (plaintext_of t payload padding) - header_size) size ≡ false =
      ground (arith, whole) in
    rw (number, behind) (rw (big, enough, take_all payload padding, h) refl)

Sealed-opens :
    (c : Codec) (t : ℕ) (payload packet : Bytes)
    → Sealed c t payload packet
    → open_typed c packet ≡ ok (t, payload)
unfolding open_typed
Sealed-opens c t payload packet s =
    let plaintext = plaintext_of t payload s.padding in
    let body = c.aead.seal s.nonce plaintext packet_aad in
    let big : ltb (length packet) (c.aead.nonce_size + c.aead.overhead + header_size) ≡ false =
      ground (arith, Sealed-length c t payload packet s) in
    let first : take c.aead.nonce_size packet ≡ s.nonce =
      rw s.is_packet (take_prefix c.aead.nonce_size s.nonce body s.nonce_size) in
    let second : drop c.aead.nonce_size packet ≡ body =
      rw s.is_packet (drop_prefix c.aead.nonce_size s.nonce body s.nonce_size) in
    rw (big, first, second, c.aead.open-seal s.nonce plaintext packet_aad s.nonce_size)
      (read-plaintext_of t payload s.padding s.of_type (omega (arith, s.payload_le)))

-- A packet that is made is of the payload.
seal_type-Sealed :
    (c : Codec) (t : ℕ) (payload tape packet tape' : Bytes)
    → IsCodec c
    → seal_type c t payload tape ≡ ok (packet, tape')
    → Sealed c t payload packet
unfolding seal_type
seal_type-Sealed c t payload tape packet tape' good h =
    let check = not (supported t) in
    let bound = ltb max_inner_packet (length payload) || ltb 65535 (length payload) in
    elim (Bool-cases check) [
      | inl e ↦ absurd (ground arith)
      | inr e ↦ elim (Bool-cases bound) [
        | inl f ↦ absurd (ground arith)
        | inr f ↦ elim (Option-cases (random_padding_length c tape)) [
          | inl g ↦ absurd (ground arith)
          | inr ((n, t1), g) ↦ elim (Option-cases (padding_bytes n t1)) [
            | inl i ↦ absurd (ground arith)
            | inr ((padding, t2), i) ↦ elim (Option-cases (read_full c.aead.nonce_size t2)) [
              | inl j ↦ absurd (ground arith)
              | inr ((nonce, t3), j) ↦
                  let range = random_padding-Range c tape n t1 good.ordered g in
                  let size = padding_bytes-length n t1 padding t2 i in
                  record {
                    nonce = nonce;
                    padding = padding;
                    of_type = ground arith;
                    payload_le = ground arith;
                    nonce_size = read_full-length c.aead.nonce_size t2 nonce t3 j;
                    padding_range = rw size range;
                    is_packet = ground arith;
                  }
            ]
          ]
        ]
      ]
    ]

-- Random bytes are enough if one of them is below 128 and there are those of the padding and of the
-- nonce behind it.
seal_type_ends :
    (c : Codec) (t : ℕ) (payload skipped : Bytes) (b : ℕ) (rest : Bytes)
    → IsCodec c
    → supported t ≡ true
    → length payload ≤ max_inner_packet
    → b < 128
    → 255 + c.aead.nonce_size ≤ length rest
    → (packet : Bytes) × (tape : Bytes) × (seal_type c t payload (skipped ++ (b ∷ rest))
        ≡ ok (packet, tape))
unfolding seal_type
seal_type_ends c t payload skipped b rest good h small low enough =
    let (n, t1, e, l1) = random_padding_ends c skipped b rest good low in
    let range = random_padding-Range c (skipped ++ (b ∷ rest)) n t1 good.ordered e in
    let (padding, t2, f, l2) =
      padding_bytes_ends n t1 (omega (arith, range.1, good.small, l1, enough)) in
    let (nonce, t3, g, l3) =
      read_full_ends c.aead.nonce_size t2 (omega (arith, range.1, good.small, l1, l2, enough)) in
    let fits : (ltb max_inner_packet (length payload) || ltb 65535 (length payload)) ≡ false =
      ground arith in
    (
      nonce ++ c.aead.seal nonce (plaintext_of t payload padding) packet_aad,
      t3,
      rw (h, fits, e) (rw f (rw g refl)),
    )

-- A codec of `NewCodec` seals a payload of at most 65475 bytes under each of the three types once the
-- random source has a byte below 128 and, behind it, 255 bytes and a nonce; the packet opens as the
-- payload under its type.
pub open-seal_type :
    (c : Codec) (t : ℕ) (payload skipped : Bytes) (b : ℕ) (rest : Bytes)
    → IsCodec c
    → supported t ≡ true
    → length payload ≤ max_inner_packet
    → b < 128
    → 255 + c.aead.nonce_size ≤ length rest
    → (packet : Bytes) × (tape : Bytes) × (seal_type c t payload (skipped ++ (b ∷ rest))
        ≡ ok (packet, tape))
      × (open_typed c packet ≡ ok (t, payload))
open-seal_type c t payload skipped b rest good h small low enough =
    let (packet, tape, e) = seal_type_ends c t payload skipped b rest good h small low enough in
    (
      packet,
      tape,
      e,
      Sealed-opens c t payload packet
          (seal_type-Sealed c t payload (skipped ++ (b ∷ rest)) packet tape good e),
    )

-- A packet that a codec of `NewCodec` makes has the nonce, a header of 4 bytes, the payload, between
-- the minimum and the maximum of padding, and the overhead of the cipher.
pub seal_type-length :
    (c : Codec) (t : ℕ) (payload tape packet tape' : Bytes)
    → IsCodec c
    → seal_type c t payload tape ≡ ok (packet, tape')
    → (c.aead.nonce_size + header_size + length payload + c.padding_min + c.aead.overhead
        ≤ length packet)
      × (length packet
          ≤ c.aead.nonce_size + header_size + length payload + c.padding_max + c.aead.overhead)
seal_type-length c t payload tape packet tape' good h =
    let s = seal_type-Sealed c t payload tape packet tape' good h in
    let size = Sealed-length c t payload packet s in
    (omega (arith, size, s.padding_range), omega (arith, size, s.padding_range))
