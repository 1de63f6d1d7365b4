-- ===== src/Controlplane/RaftLog/RoundTrip.antt =====
-- What internal/controlplane/store.go persists of a Raft log entry is read back.
use bpc.Base.{
  ℕ, zero, suc, ◌+◌, ◌%◌, ◌^◌, ◌≤◌, ◌<◌, [], ◌∷◌, ◌++◌, length, length-append, take, drop, get_or,
  take_prefix, drop_prefix, drop-drop, take_all, drop_all, Bytes, be, put_be, be-put_be,
  length-put_be, ok, ◌≡◌, refl, ◌∙◌, ap, arith,
}
use bpc.Controlplane.RaftLog.{Log, u64key, decode_u64, encode_raft_log, decode_raft_log}

-- A log whose numbers fit their fields, and that has a time.
pub record Fits (log : Log) : Type 0 where
  pub index_lt : log.index < 256 ^ 8
  pub term_lt : log.term < 256 ^ 8
  pub type_lt : log.log_type < 256
  pub time_lt : log.appended_at < 256 ^ 8
  pub time_pos : 0 < log.appended_at
  pub data_lt : length log.log_data < 256 ^ 8
  pub extensions_lt : length log.extensions < 256 ^ 8

get_or-append :
    (n k : ℕ) (xs ys : Bytes) → length xs ≡ n → get_or (xs ++ ys) (n + k) 0 ≡ get_or ys k 0
get_or-append n k [] ys h = let e : n + k ≡ k = omega arith in rw e refl
get_or-append zero k (x ∷ xs) ys h = absurd (omega arith)
get_or-append (suc n) k (x ∷ xs) ys h =
    let e : suc n + k ≡ suc (n + k) = omega arith in rw e (get_or-append n k xs ys (omega arith))

-- The bytes of a log taken apart.
record Parts (log : Log) (raw : Bytes) : Type 0 where
  version : get_or raw 0 0 ≡ 1
  size : 42 ≤ length raw
  index : be (take 8 (drop 1 raw)) ≡ log.index
  term : be (take 8 (drop 9 raw)) ≡ log.term
  log_type : get_or raw 17 0 ≡ log.log_type
  time : be (take 8 (drop 18 raw)) ≡ log.appended_at
  data_len : be (take 8 (drop 26 raw)) ≡ length log.log_data
  ext_len : be (take 8 (drop 34 raw)) ≡ length log.extensions
  body : drop 42 raw ≡ log.log_data ++ log.extensions

field : (v : ℕ) (ys rest : Bytes) → v < 256 ^ 8 → rest ≡ put_be 8 v ++ ys → be (take 8 rest) ≡ v
field v ys rest h e = rw (e, take_prefix 8 (put_be 8 v) ys (length-put_be 8 v)) (be-put_be 8 v h)

behind : (n v k : ℕ) (raw ys : Bytes) → k ≡ n + 8 → drop n raw ≡ put_be 8 v ++ ys → drop k raw ≡ ys
behind n v k raw ys e h =
    drop-drop n 8 raw k e ∙ rw h (drop_prefix 8 (put_be 8 v) ys (length-put_be 8 v))

-- The header has 42 bytes.
pub encode_raft_log-length :
    (log : Log) → length (encode_raft_log log) ≡ 42 + length log.log_data + length log.extensions
unfolding encode_raft_log
encode_raft_log-length log =
    let body = log.log_data ++ log.extensions in
    let t34 = put_be 8 (length log.extensions) ++ body in
    let t26 = put_be 8 (length log.log_data) ++ t34 in
    let t18 = put_be 8 log.appended_at ++ t26 in
    let t17 = (log.log_type % 256) ∷ t18 in
    let t9 = put_be 8 log.term ++ t17 in
    omega (
      arith,
      length-append (put_be 8 log.index) t9,
      length-append (put_be 8 log.term) t17,
      length-append (put_be 8 log.appended_at) t26,
      length-append (put_be 8 (length log.log_data)) t34,
      length-append (put_be 8 (length log.extensions)) body,
      length-append log.log_data log.extensions,
      length-put_be 8 log.index,
      length-put_be 8 log.term,
      length-put_be 8 log.appended_at,
      length-put_be 8 (length log.log_data),
      length-put_be 8 (length log.extensions),
    )

encode-Parts : (log : Log) → Fits log → Parts log (encode_raft_log log)
unfolding encode_raft_log
encode-Parts log fits =
    let body = log.log_data ++ log.extensions in
    let t34 = put_be 8 (length log.extensions) ++ body in
    let t26 = put_be 8 (length log.log_data) ++ t34 in
    let t18 = put_be 8 log.appended_at ++ t26 in
    let t17 = (log.log_type % 256) ∷ t18 in
    let t9 = put_be 8 log.term ++ t17 in
    let raw : Bytes = 1 ∷ put_be 8 log.index ++ t9 in
    let at_9 : drop 9 raw ≡ t9 = behind 1 log.index 9 raw t9 refl refl in
    let at_17 : drop 17 raw ≡ t17 = behind 9 log.term 17 raw t17 refl at_9 in
    let at_18 : drop 18 raw ≡ t18 = drop-drop 17 1 raw 18 refl ∙ rw at_17 refl in
    let at_26 : drop 26 raw ≡ t26 = behind 18 log.appended_at 26 raw t26 refl at_18 in
    let at_34 : drop 34 raw ≡ t34 = behind 26 (length log.log_data) 34 raw t34 refl at_26 in
    record {
      version = refl;
      size = omega (arith, encode_raft_log-length log);
      index = field log.index t9 (drop 1 raw) fits.index_lt refl;
      term = field log.term t17 (drop 9 raw) fits.term_lt at_9;
      log_type =
          get_or-append 8 8 (put_be 8 log.index) t9 (length-put_be 8 log.index)
          ∙ get_or-append 8 0 (put_be 8 log.term) t17 (length-put_be 8 log.term)
          ∙ omega (arith, fits.type_lt);
      time = field log.appended_at t26 (drop 18 raw) fits.time_lt at_18;
      data_len = field (length log.log_data) t34 (drop 26 raw) fits.data_lt at_26;
      ext_len = field (length log.extensions) body (drop 34 raw) fits.extensions_lt at_34;
      body = behind 34 (length log.extensions) 42 raw body refl at_34;
    }

take_self : (xs : Bytes) → take (length xs) xs ≡ xs
take_self [] = refl
take_self (x ∷ xs) = ap (λ ys. x ∷ ys) (take_self xs)

-- A log that has a time and whose numbers fit is read back as it was, whatever log it is read into.
pub decode-encode_raft_log :
    (log out : Log) → Fits log → decode_raft_log (encode_raft_log log) out ≡ ok log
unfolding decode_raft_log
decode-encode_raft_log log out fits =
    let parts = encode-Parts log fits in
    let rest = drop_all log.log_data log.extensions in
    let first = take_all log.log_data log.extensions in
    let all = take_self log.extensions in
    rw
      (
        parts.data_len, parts.ext_len, parts.body, parts.index, parts.term, parts.log_type,
        parts.time, parts.version, rest, first, all,
      )
      (ground (arith, parts.size, fits.time_pos, length-append log.log_data log.extensions))

-- The key of a number that fits reads as the number.
pub decode_u64-u64key : (v : ℕ) → v < 256 ^ 8 → decode_u64 (u64key v) ≡ v
unfolding decode_u64 u64key
decode_u64-u64key v h = rw (length-put_be 8 v, be-put_be 8 v h) refl
