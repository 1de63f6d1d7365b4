-- ===== src/Wgshim/Codec/Tests.antt =====
-- The codec of internal/wgshim/codec.go at a concrete packet, under a toy cipher whose tag is 9.
use bpc.Base.{
  ℕ, ◌+◌, ◌≤◌, ◌≡◌, ◌↔◌, put_be, [], ◌∷◌, ◌++◌, length, take, drop, All, Bytes, IsByte, Option,
  none, some, ok, refl, arith, zero, suc,
}
use bpc.Wgshim.Codec.{
  Codec, Aead, header_size, packet_data, packet_probe, packet_aad, seal_type, open_typed,
  random_padding_length, read_full, padding_bytes, plaintext_of, draw_below,
}
use bpc.Wgshim.Codec.Draws.{IsCodec}
use bpc.Wgshim.Codec.Seals.{open-seal_type, seal_type-length}
use bpc.Wgshim.Codec.Opens.{Opened, open_typed_iff}

abbrev open_toy : Bytes → Bytes → Bytes → Option Bytes
open_toy nonce [] aad = none
open_toy nonce (x ∷ body) aad = some body

abbrev toy : Aead
toy = record {
  nonce_size = 1;
  overhead = 1;
  seal = λ nonce plaintext aad. 9 ∷ plaintext;
  open_sealed = open_toy;
  open-seal = λ nonce plaintext aad h. refl;
  length-seal = λ nonce plaintext aad h. omega arith;
}

-- One byte of padding, or two.
abbrev codec : Codec
codec = record { aead = toy; padding_min = 1; padding_max = 2 }

abbrev repeated : ℕ → Bytes
repeated zero = []
repeated (suc n) = 77 ∷ repeated n

codec-IsCodec : IsCodec codec
codec-IsCodec = record { ordered = omega arith; small = omega arith }

open-seal_type_example :
    (packet : Bytes) × (tape : Bytes) × (seal_type codec packet_data
        (5 ∷ 6 ∷ [])
        (255 ∷ 130 ∷ [] ++ (3 ∷ repeated 256))
      ≡ ok (packet, tape))
    × (open_typed codec packet ≡ ok (packet_data, 5 ∷ 6 ∷ []))
open-seal_type_example =
    open-seal_type codec packet_data (5 ∷ 6 ∷ []) (255 ∷ 130 ∷ []) 3 (repeated 256) codec-IsCodec
      refl (omega arith) (omega arith) (omega arith)

abbrev packet : Bytes
packet = 8 ∷ 9 ∷ 1 ∷ 1 ∷ 0 ∷ 2 ∷ 5 ∷ 6 ∷ 4 ∷ []

seals_packet : seal_type codec packet_probe (5 ∷ 6 ∷ []) (2 ∷ 4 ∷ 8 ∷ []) ≡ ok (packet, [])
unfolding seal_type random_padding_length draw_below padding_bytes read_full plaintext_of put_be
seals_packet = refl

seal_type-length_example :
    (codec.aead.nonce_size + header_size + 2 + codec.padding_min + codec.aead.overhead
      ≤ length packet)
    × (length packet
        ≤ codec.aead.nonce_size + header_size + 2 + codec.padding_max + codec.aead.overhead)
seal_type-length_example =
    seal_type-length codec packet_probe (5 ∷ 6 ∷ []) (2 ∷ 4 ∷ 8 ∷ []) packet [] codec-IsCodec
      seals_packet

packet_bytes :
    (plaintext : Bytes)
    → open_toy (take 1 packet) (drop 1 packet) packet_aad ≡ some plaintext
    → All IsByte plaintext
packet_bytes plaintext h =
    let same : 1 ∷ 1 ∷ 0 ∷ 2 ∷ 5 ∷ 6 ∷ 4 ∷ [] ≡ plaintext = ground arith in
    rw (← same) (
      omega arith,
      (omega arith, (omega arith, (omega arith, (omega arith, (omega arith, (omega arith, tt)))))),
    )

open_typed_iff_example :
    (open_typed codec packet ≡ ok (packet_probe, 5 ∷ 6 ∷ []))
    ↔ Opened codec packet packet_probe (5 ∷ 6 ∷ [])
open_typed_iff_example = open_typed_iff codec packet packet_probe (5 ∷ 6 ∷ []) packet_bytes
