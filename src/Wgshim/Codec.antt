-- ===== src/Wgshim/Codec.antt =====
-- internal/wgshim/codec.go: the packets of the outer transport. AES-GCM, HMAC and the random bytes
-- come from Go's library: `Aead` holds what it documents, and the random bytes are the tape that is
-- still to be read.
pub mod Draws
pub mod Seals
pub mod Opens
mod Tests
use bpc.Base.{
  ℕ, ◌+◌, ◌-◌, ◌%◌, ◌≡◌, Bool, true, false, not, ◌&&◌, ◌||◌, List, [], ◌∷◌, ◌++◌, zero, suc, ltb,
  ◌==◌, if◌then◌else◌, length, take, drop, get_or, Bytes, codes, be, put_be, Option, none, some,
  Result, ok, err, ◌>>=◌, ◌>>◌, fail_if, require,
}
use bpc.Base.Int.{ℤ, pos, negsuc}
use bpc.Base.Encoding.{trim_space, base64_decode}

-- `cipher.AEAD` for one key.
pub record Aead : Type 0 where
  pub nonce_size : ℕ
  pub overhead : ℕ
  pub seal : Bytes → Bytes → Bytes → Bytes
  pub open_sealed : Bytes → Bytes → Bytes → Option Bytes
  pub open-seal :
      (nonce plaintext aad : Bytes)
      → length nonce ≡ nonce_size
      → open_sealed nonce (seal nonce plaintext aad) aad ≡ some plaintext
  pub length-seal :
      (nonce plaintext aad : Bytes)
      → length nonce ≡ nonce_size
      → length (seal nonce plaintext aad) ≡ length plaintext + overhead

abbrev pub protocol_version : ℕ
protocol_version = 1

abbrev pub packet_data : ℕ
packet_data = 0

abbrev pub packet_probe : ℕ
packet_probe = 1

abbrev pub packet_probe_reply : ℕ
packet_probe_reply = 2

abbrev pub header_size : ℕ
header_size = 4

abbrev pub max_inner_packet : ℕ
max_inner_packet = 65507 - 12 - 16 - header_size

abbrev pub packet_aad : Bytes
packet_aad = codes "BPC-WGSHIM-v1"

pub data Direction : Type 0 where
  client_to_server server_to_client : Direction

pub record Codec : Type 0 where
  pub aead : Aead
  pub padding_min : ℕ
  pub padding_max : ℕ

pub data CodecError : Type 0 where
  bad_base64 key_size psk_size padding_range cipher_failed : CodecError
  unsupported_type too_large out_of_random : CodecError
  too_short authentication_failed invalid_header invalid_length not_data : CodecError

-- From the contents of the key file on.
pub load_psk : Bytes → Result CodecError Bytes
load_psk raw = do
  key ← require (base64_decode (trim_space raw)) bad_base64
  fail_if (not (length key == 32)) key_size
  ok key

label_of : Direction → Bytes
label_of client_to_server = codes "bpc-wgshim-v1-c2s"
label_of server_to_client = codes "bpc-wgshim-v1-s2c"

-- `hmac` takes the key and the message.
pub derive_key : (Bytes → Bytes → Bytes) → Bytes → Direction → Result CodecError Bytes
unfolding label_of
derive_key hmac psk direction = do
  fail_if (not (length psk == 32)) psk_size
  ok (hmac psk (label_of direction))

-- `new_aead` is `aes.NewCipher` and `cipher.NewGCM`.
pub new_codec : (Bytes → Option Aead) → Bytes → ℤ → ℤ → Result CodecError Codec
new_codec new_aead key (pos padding_min) (pos padding_max) = do
  fail_if (ltb padding_max padding_min || ltb 255 padding_max) padding_range
  aead ← require (new_aead key) cipher_failed
  ok (record { aead = aead; padding_min = padding_min; padding_max = padding_max })
new_codec new_aead key (pos padding_min) (negsuc n) = err padding_range
new_codec new_aead key (negsuc n) padding_max = err padding_range

-- `io.ReadFull`: `none` where the source has ended.
pub read_full : ℕ → Bytes → Option (Bytes × Bytes)
read_full n tape = if ltb (length tape) n then none else some (take n tape, drop n tape)

-- The loop of `randomPaddingLength`: the first byte below the limit counts.
unfoldable pub draw_below : ℕ → ℕ → ℕ → Bytes → Option (ℕ × Bytes)
draw_below least span limit [] = none
draw_below least span limit (b ∷ tape) =
    let rest = draw_below least span limit tape in
    if ltb b limit then some (least + b % span, tape) else rest

pub random_padding_length : Codec → Bytes → Option (ℕ × Bytes)
random_padding_length c tape =
    if c.padding_min == c.padding_max
    then some (c.padding_min, tape)
    else (let span = c.padding_max - c.padding_min + 1 in
        draw_below c.padding_min span (256 - 256 % span) tape)

abbrev pub supported : ℕ → Bool
supported t = t == packet_data || (t == packet_probe || t == packet_probe_reply)

pub plaintext_of : ℕ → Bytes → Bytes → Bytes
plaintext_of packet_type payload padding =
    protocol_version ∷ packet_type ∷ put_be 2 (length payload) ++ (payload ++ padding)

pub padding_bytes : ℕ → Bytes → Option (Bytes × Bytes)
padding_bytes n tape = if ltb 0 n then read_full n tape else some ([], tape)

-- The packet and the tape behind it.
pub seal_type : Codec → ℕ → Bytes → Bytes → Result CodecError (Bytes × Bytes)
seal_type c packet_type payload tape = do
  fail_if (not (supported packet_type)) unsupported_type
  fail_if (ltb max_inner_packet (length payload) || ltb 65535 (length payload)) too_large
  (pad_len, t1) ← require (random_padding_length c tape) out_of_random
  (padding, t2) ← require (padding_bytes pad_len t1) out_of_random
  (nonce, t3) ← require (read_full c.aead.nonce_size t2) out_of_random
  ok (nonce ++ c.aead.seal nonce (plaintext_of packet_type payload padding) packet_aad, t3)

pub seal_data : Codec → Bytes → Bytes → Result CodecError (Bytes × Bytes)
seal_data c payload tape = seal_type c packet_data payload tape

pub seal_probe : Codec → Bytes → Bytes → Result CodecError (Bytes × Bytes)
seal_probe c payload tape = seal_type c packet_probe payload tape

pub seal_probe_reply : Codec → Bytes → Bytes → Result CodecError (Bytes × Bytes)
seal_probe_reply c payload tape = seal_type c packet_probe_reply payload tape

-- From the authenticated plaintext on.
pub read_plaintext : Bytes → Result CodecError (ℕ × Bytes)
read_plaintext plaintext = do
  fail_if (ltb (length plaintext) header_size || not (get_or plaintext 0 0 == protocol_version))
      invalid_header
  let packet_type = get_or plaintext 1 0
  fail_if (not (supported packet_type)) unsupported_type
  let payload_len = be (take 2 (drop 2 plaintext))
  fail_if (ltb (length plaintext - header_size) payload_len) invalid_length
  ok (packet_type, take payload_len (drop header_size plaintext))

pub open_typed : Codec → Bytes → Result CodecError (ℕ × Bytes)
open_typed c packet = do
  let ns = c.aead.nonce_size
  fail_if (ltb (length packet) (ns + c.aead.overhead + header_size)) too_short
  plaintext ←
      require (c.aead.open_sealed (take ns packet) (drop ns packet) packet_aad)
        authentication_failed
  read_plaintext plaintext

pub open_data : Codec → Bytes → Result CodecError Bytes
open_data c packet = do
  (packet_type, payload) ← open_typed c packet
  fail_if (not (packet_type == packet_data)) not_data
  ok payload
