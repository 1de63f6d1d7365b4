-- ===== src/Controlplane/RaftLog.antt =====
-- internal/controlplane/store.go: the persisted form of a Raft log entry. A time is its `UnixNano`
-- as the uint64 that is written.
pub mod RoundTrip
mod Tests
use bpc.Base.{
  ℕ, ◌%◌, ◌^◌, Bool, true, false, not, ◌||◌, List, [], ◌∷◌, ◌++◌, ltb, ◌==◌, if◌then◌else◌, length,
  take, drop, get_or, Bytes, be, put_be, Result, ok, err, ◌>>=◌, ◌>>◌, fail_if,
}

-- The fields of `raft.Log`; `log_type` is a byte.
pub record Log : Type 0 where
  pub index : ℕ
  pub term : ℕ
  pub log_type : ℕ
  pub appended_at : ℕ
  pub log_data : Bytes
  pub extensions : Bytes

pub data LogError : Type 0 where
  invalid_log invalid_data_length invalid_extension_length : LogError

unfoldable pub u64key : ℕ → Bytes
u64key v = put_be 8 v

unfoldable pub decode_u64 : Bytes → ℕ
decode_u64 b = if not (length b == 8) then 0 else be b

pub encode_raft_log : Log → Bytes
encode_raft_log log =
    1 ∷ put_be 8 log.index
    ++ (put_be 8 log.term
        ++ ((log.log_type % 256) ∷ put_be 8 log.appended_at
            ++ (put_be 8 (length log.log_data)
                ++ (put_be 8 (length log.extensions) ++ (log.log_data ++ log.extensions)))))

-- The fields behind the header, which has 42 bytes.
read_body : Log → Bytes → Result LogError Log
read_body head raw = do
  let data_len = be (take 8 (drop 26 raw))
  let ext_len = be (take 8 (drop 34 raw))
  let body = drop 42 raw
  fail_if (ltb (length body) data_len) invalid_data_length
  let rest = drop data_len body
  fail_if (ltb (length rest) ext_len) invalid_extension_length
  ok (record head { log_data = take data_len body; extensions = take ext_len rest })

-- `out` keeps its time where the persisted one is 0.
pub decode_raft_log : Bytes → Log → Result LogError Log
unfolding read_body
decode_raft_log raw out = do
  fail_if (ltb (length raw) 42 || not (get_or raw 0 0 == 1)) invalid_log
  let ns = be (take 8 (drop 18 raw))
  read_body
      (record out {
        index = be (take 8 (drop 1 raw));
        term = be (take 8 (drop 9 raw));
        log_type = get_or raw 17 0;
        appended_at = if ns == 0 then out.appended_at else ns;
      })
      raw
