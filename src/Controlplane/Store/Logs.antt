-- ===== src/Controlplane/Store/Logs.antt =====
-- What internal/controlplane/store.go promises Raft of the log: entries that are stored are read back.
use bpc.Base.{
  ℕ, ◌^◌, ◌≤◌, ◌<◌, false, List, [], ◌∷◌, length, length-put_be, All, bytes_eq, bytes_eq_iff,
  bytes_eq_refl, some, ok, Bool-cases, inl, inr, ◌≡◌, ◌≢◌, refl, sym, ◌∙◌, ap, arith,
}
use bpc.Controlplane.RaftLog.{Log, u64key, decode_u64, encode_raft_log}
use bpc.Controlplane.RaftLog.RoundTrip.{Fits, decode-encode_raft_log, decode_u64-u64key}
use bpc.Controlplane.Bolt.{Bolt}
use bpc.Controlplane.Store.{Store, get_log, put_logs, store_logs}

-- An entry whose numbers fit and whose persisted form is a value of bbolt.
pub record Storable (log : Log) : Type 0 where
  pub fits : Fits log
  pub small : length (encode_raft_log log) ≤ 2147483646

-- No two entries of a list have one index.
abbrev pub Distinct : List Log → Type 0
Distinct [] = Unit
Distinct (l ∷ logs) = All (λ k. k.index ≢ l.index) logs × Distinct logs

u64key-ne : (a b : ℕ) → a < 256 ^ 8 → b < 256 ^ 8 → a ≢ b → bytes_eq (u64key a) (u64key b) ≡ false
u64key-ne a b ha hb h = elim (Bool-cases (bytes_eq (u64key a) (u64key b))) [
  | inr e ↦ e
  | inl e ↦
      let same = (bytes_eq_iff (u64key a) (u64key b)).0 e in
      absurd (h (sym (decode_u64-u64key a ha) ∙ ap decode_u64 same ∙ decode_u64-u64key b hb))
]

pub u64key-length : (v : ℕ) → length (u64key v) ≡ 8
unfolding u64key
u64key-length v = length-put_be 8 v

module _ (bolt : Bolt) where
  open bolt use {Bucket, get, put, get-put}

  put_logs-get :
      (logs : List Log) (b : Bucket)
      → All Storable logs
      → Distinct logs
      → (b' : Bucket) × (put_logs bolt logs b ≡ some b')
        × All (λ l. get (u64key l.index) b' ≡ some (encode_raft_log l)) logs
        × ((k : ℕ)
            → k < 256 ^ 8
            → All (λ l. l.index ≢ k) logs
            → get (u64key k) b' ≡ get (u64key k) b)
  unfolding put_logs
  put_logs-get [] b good distinct = (b, refl, tt, λ k h a. refl)
  put_logs-get (l ∷ logs) b good distinct =
      let size = u64key-length l.index in
      let (b1, e) =
        bolt.put_total (u64key l.index) (encode_raft_log l) b (omega (arith, size))
          (omega (arith, size)) good.0.small in
      let (b2, f, there, others) = put_logs-get logs b1 good.1 distinct.1 in
      let law = get-put (u64key l.index) (encode_raft_log l) b b1 e in
      (
        b2,
        rw (e, put_logs) f,
        (
          others l.index good.0.fits.index_lt distinct.0
              ∙ law (u64key l.index)
              ∙ rw (bytes_eq_refl (u64key l.index)) refl,
          there,
        ),
        λ k h a.
            others k h a.1
            ∙ law (u64key k)
            ∙ rw (u64key-ne l.index k good.0.fits.index_lt h a.0) refl,
      )

  get_log-kept :
      (s : Store bolt) (k : ℕ) (l out : Log) (b : Bucket)
      → get (u64key k) b ≡ some (encode_raft_log l)
      → Fits l
      → get_log bolt (record s { logs = b }) k out ≡ ok l
  unfolding get_log
  get_log-kept s k l out b h fits = rw (h, get_log) (rw (decode-encode_raft_log l out fits) refl)

  get_log-same :
      (s : Store bolt) (k : ℕ) (out : Log) (b : Bucket)
      → get (u64key k) b ≡ get (u64key k) s.logs
      → get_log bolt (record s { logs = b }) k out ≡ get_log bolt s k out
  unfolding get_log
  get_log-same s k out b h = rw (h, get_log) refl

  all_kept :
      (s : Store bolt) (out : Log) (b : Bucket) (logs : List Log)
      → All Storable logs
      → All (λ l. get (u64key l.index) b ≡ some (encode_raft_log l)) logs
      → All (λ l. get_log bolt (record s { logs = b }) l.index out ≡ ok l) logs
  all_kept s out b [] good there = tt
  all_kept s out b (l ∷ logs) good there =
      (get_log-kept s l.index l out b there.0 good.0.fits, all_kept s out b logs good.1 there.1)

  -- Entries that have a time and fit their persisted form and a value of bbolt, and of which no two
  -- have one index, are stored: each of them is read back as it was, and every other index that is a
  -- uint64 reads as before.
  pub get_log-store_logs :
      (s : Store bolt) (logs : List Log) (out : Log)
      → All Storable logs
      → Distinct logs
      → (s' : Store bolt) × (store_logs bolt s logs ≡ (s', ok tt))
        × All (λ l. get_log bolt s' l.index out ≡ ok l) logs
        × ((k : ℕ)
            → k < 256 ^ 8
            → All (λ l. l.index ≢ k) logs
            → get_log bolt s' k out ≡ get_log bolt s k out)
  unfolding store_logs
  get_log-store_logs s logs out good distinct =
      let (b, e, there, others) = put_logs-get logs s.logs good distinct in
      (
        record s { logs = b },
        rw (e, store_logs) refl,
        all_kept s out b logs good there,
        λ k h a. get_log-same s k out b (others k h a),
      )
