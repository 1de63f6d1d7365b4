-- ===== src/Controlplane/Store/Tests.antt =====
-- The log of internal/controlplane/store.go at concrete entries.
use bpc.Base.{
  ℕ, ◌^◌, ◌<◌, ◌≡◌, ◌≢◌, List, [], ◌∷◌, All, put_be, bytes_lt, leb, ◌&&◌, if◌then◌else◌, ok, err,
  refl, arith,
}
use bpc.Controlplane.RaftLog.{Log, u64key, encode_raft_log}
use bpc.Controlplane.RaftLog.RoundTrip.{encode_raft_log-length}
use bpc.Controlplane.Bolt.Sorted.{sorted_bolt}
use bpc.Controlplane.Store.{Store, log_not_found, get_log, store_logs, delete_range}
use bpc.Controlplane.Store.Ranges.{get_log-delete_range}
use bpc.Controlplane.Store.Logs.{Storable, get_log-store_logs}

abbrev entry : ℕ → Log
entry index = record {
  index = index;
  term = 2;
  log_type = 0;
  appended_at = 1700000000000000000;
  log_data = 1 ∷ 2 ∷ 3 ∷ [];
  extensions = [];
}

abbrev entries : List Log
entries = entry 7 ∷ entry 8 ∷ []

abbrev store : Store sorted_bolt
store = record {
  logs = sorted_bolt.empty;
  stable = sorted_bolt.empty;
  canonical = sorted_bolt.empty;
  meta = sorted_bolt.empty;
}

entry-Storable : (index : ℕ) → index < 256 ^ 8 → Storable (entry index)
entry-Storable index h = record {
  fits = record {
    index_lt = h;
    term_lt = omega arith;
    type_lt = omega arith;
    time_lt = omega arith;
    time_pos = omega arith;
    data_lt = omega arith;
    extensions_lt = omega arith;
  };
  small = omega (arith, encode_raft_log-length (entry index));
}

get_log-store_logs_example :
    (s' : Store sorted_bolt) × (store_logs sorted_bolt store entries ≡ (s', ok tt))
    × All (λ l. get_log sorted_bolt s' l.index (entry 0) ≡ ok l) entries
    × ((k : ℕ)
        → k < 256 ^ 8
        → All (λ l. l.index ≢ k) entries
        → get_log sorted_bolt s' k (entry 0) ≡ get_log sorted_bolt store k (entry 0))
get_log-store_logs_example =
    get_log-store_logs sorted_bolt store entries (entry 0)
      (entry-Storable 7 (omega arith), (entry-Storable 8 (omega arith), tt))
      ((λ h. absurd (ground arith), tt), (tt, tt))

-- The entries 7 and 8.
abbrev two_logs : Store sorted_bolt
two_logs = record store {
  logs = (
    (u64key 7, encode_raft_log (entry 7)) ∷ (u64key 8, encode_raft_log (entry 8)) ∷ [],
    ((unfold u64key put_be bytes_lt in refl, tt), (tt, tt)),
  );
}

get_log-delete_range_example :
    (s' : Store sorted_bolt) × (delete_range sorted_bolt two_logs 1 7 ≡ (s', ok tt))
    × ((k : ℕ)
        → k < 256 ^ 8
        → get_log sorted_bolt s' k (entry 0) ≡ (
            if leb 1 k && leb k 7
            then err log_not_found
            else get_log sorted_bolt two_logs k (entry 0)))
get_log-delete_range_example =
    get_log-delete_range sorted_bolt two_logs 1 7 (entry 0) (omega arith)
      ((7, omega arith, refl), ((8, omega arith, refl), tt))
