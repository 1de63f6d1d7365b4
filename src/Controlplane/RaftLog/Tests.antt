-- ===== src/Controlplane/RaftLog/Tests.antt =====
-- The Raft log of internal/controlplane/store.go at a concrete entry.
use bpc.Base.{[], ◌∷◌, ok, err, ◌≡◌, refl, arith}
use bpc.Controlplane.RaftLog.{Log, invalid_log, encode_raft_log, decode_raft_log}
use bpc.Controlplane.RaftLog.RoundTrip.{decode-encode_raft_log}

abbrev entry : Log
entry = record {
  index = 7;
  term = 2;
  log_type = 0;
  appended_at = 1700000000000000000;
  log_data = 1 ∷ 2 ∷ 3 ∷ [];
  extensions = 9 ∷ [];
}

abbrev empty : Log
empty = record {
  index = 0;
  term = 0;
  log_type = 0;
  appended_at = 0;
  log_data = [];
  extensions = [];
}

short_is_refused : decode_raft_log (1 ∷ []) empty ≡ err invalid_log
unfolding decode_raft_log
short_is_refused = refl

decode-encode_raft_log_example : decode_raft_log (encode_raft_log entry) empty ≡ ok entry
decode-encode_raft_log_example = decode-encode_raft_log entry empty record {
  index_lt = omega arith;
  term_lt = omega arith;
  type_lt = omega arith;
  time_lt = omega arith;
  time_pos = omega arith;
  data_lt = omega arith;
  extensions_lt = omega arith;
}
