-- ===== src/Controlplane/Store/Ranges.antt =====
-- `DeleteRange` of internal/controlplane/store.go deletes the entries of a range and no other.
use bpc.Base.{
  ℕ, ◌^◌, ◌<◌, Bool, true, false, ◌&&◌, [], ◌∷◌, ltb, leb, ◌==◌, if◌then◌else◌, All, Bytes,
  bytes_eq, bytes_lt, Option, none, some, ok, err, Bool-cases, inl, inr, ◌≡◌, refl, ◌∙◌, ap, arith,
}
use bpc.Base.Dict.{Dict, lookup}
use bpc.Controlplane.RaftLog.{Log, u64key, decode_u64}
use bpc.Controlplane.RaftLog.RoundTrip.{decode_u64-u64key}
use bpc.Controlplane.Bolt.{Bolt, Ascending}
use bpc.Controlplane.Store.{Store, log_not_found, seek, get_log, delete_through, delete_range}
use bpc.Controlplane.Store.Order.{u64key-bytes_lt, u64key-bytes_eq, lookup_below, lookup-seek_from}

-- The keys of the log's bucket are those of uint64s.
abbrev pub Keyed : Dict Bytes → Type 0
Keyed m = All (λ e. (i : ℕ) × (i < 256 ^ 8) × (e.0 ≡ u64key i)) m

seek-Keyed : (p : Bytes) (m : Dict Bytes) → Keyed m → Keyed (seek p m)
unfolding seek
seek-Keyed p [] h = tt
seek-Keyed p ((k, v) ∷ m) h = elim (Bool-cases (bytes_lt k p)) [
  | inl e ↦ rw e (seek-Keyed p m h.1)
  | inr e ↦ rw e h
]

seek-Ascending : (p : Bytes) (m : Dict Bytes) → Ascending m → Ascending (seek p m)
unfolding seek
seek-Ascending p [] h = tt
seek-Ascending p ((k, v) ∷ m) h = elim (Bool-cases (bytes_lt k p)) [
  | inl e ↦ rw e (seek-Ascending p m h.1)
  | inr e ↦ rw e h
]

pub found : Option Bytes → Bool
found none = false
found (some v) = true

module _ (bolt : Bolt) where
  open bolt use {Bucket, get, delete, get-delete}

  -- The loop deletes what the cursor shows up to the greatest index.
  delete_through-get :
      (max : ℕ) (m : Dict Bytes) (b : Bucket)
      → Ascending m
      → Keyed m
      → (b' : Bucket) × (delete_through bolt max m b ≡ some b')
        × ((k : ℕ)
            → k < 256 ^ 8
            → get (u64key k) b'
              ≡ (if found (lookup (u64key k) m) && leb k max then none else get (u64key k) b))
  unfolding delete_through found lookup
  delete_through-get max [] b asc keyed = (b, refl, λ k h. refl)
  delete_through-get max ((key, v) ∷ m) b asc ((i, small, same), keyed) =
      let index : decode_u64 key ≡ i = ap decode_u64 same ∙ decode_u64-u64key i small in
      elim (Bool-cases (ltb max i)) [
        | inl e ↦ (b, rw (index, delete_through) (rw e refl), λ k h. past k h e)
        | inr e ↦
            let (b1, f) = bolt.delete_total key b in
            let (b2, g, rest) = delete_through-get max m b1 asc.1 keyed in
            (
              b2,
              rw (index, delete_through) (rw (e, f) g),
              λ k h. one_less k h e b1 b2 (rest k h) (get-delete key b b1 f (u64key k)),
            )
      ]
    where
      eqv : (k : ℕ) → k < 256 ^ 8 → bytes_eq key (u64key k) ≡ (i == k)
      eqv k h = ap (λ x. bytes_eq x (u64key k)) same ∙ u64key-bytes_eq i k small h

      ltv : (k : ℕ) → k < 256 ^ 8 → bytes_lt key (u64key k) ≡ ltb i k
      ltv k h = ap (λ x. bytes_lt x (u64key k)) same ∙ u64key-bytes_lt i k small h

      past :
          (k : ℕ)
          → k < 256 ^ 8
          → ltb max i ≡ true
          → get (u64key k) b ≡ (
              if found (if bytes_eq key (u64key k) then some v else lookup (u64key k) m)
                && leb k max
              then none
              else get (u64key k) b)
      past k h e = elim (Bool-cases (leb k max)) [
        | inr f ↦ rw f (ground arith)
        | inl f ↦
            let below : bytes_lt key (u64key k) ≡ false = ltv k h ∙ ground arith in
            let other : bytes_eq key (u64key k) ≡ false = eqv k h ∙ ground arith in
            rw (other, lookup_below key (u64key k) m below asc.0) refl
      ]

      one_less :
          (k : ℕ)
          → k < 256 ^ 8
          → ltb max i ≡ false
          → (b1 b2 : Bucket)
          → get (u64key k) b2
            ≡ (if found (lookup (u64key k) m) && leb k max then none else get (u64key k) b1)
          → get (u64key k) b1 ≡ (if bytes_eq key (u64key k) then none else get (u64key k) b)
          → get (u64key k) b2 ≡ (
              if found (if bytes_eq key (u64key k) then some v else lookup (u64key k) m)
                && leb k max
              then none
              else get (u64key k) b)
      one_less k h e b1 b2 r d = elim (Bool-cases (bytes_eq key (u64key k))) [
        | inr f ↦ rw f (ground arith)
        | inl f ↦ rw f (ground (arith, eqv k h))
      ]

  abbrev in_range : ℕ → ℕ → ℕ → Bool
  in_range min max k = leb min k && leb k max

  range-get :
      (min max : ℕ) (b : Bucket)
      → min < 256 ^ 8
      → Keyed (bolt.entries b)
      → (b' : Bucket) × (delete_through bolt max (seek (u64key min) (bolt.entries b)) b ≡ some b')
        × ((k : ℕ)
            → k < 256 ^ 8
            → get (u64key k) b' ≡ (if in_range min max k then none else get (u64key k) b))
  range-get min max b small keyed =
      let m = bolt.entries b in
      let asc = bolt.entries-Ascending b in
      let p = u64key min in
      let (b', e, at_key) =
        delete_through-get max (seek p m) b (seek-Ascending p m asc) (seek-Keyed p m keyed) in
      (
        b',
        e,
        λ k h.
            at_key k h
            ∙ rw
                (
                  lookup-seek_from p (u64key k) m asc,
                  u64key-bytes_lt k min h small,
                  bolt.lookup-entries (u64key k) b,
                )
                (choose k (get (u64key k) b)),
      )
    where
      choose :
          (k : ℕ) (g : Option Bytes)
          → (if found (if ltb k min then none else g) && leb k max then none else g)
            ≡ (if in_range min max k then none else g)
      choose k none = unfold found in ground arith
      choose k (some v) = unfold found in ground arith

  get_log-of :
      (s : Store bolt) (k : ℕ) (out : Log) (b : Bucket) (inside : Bool)
      → get (u64key k) b ≡ (if inside then none else get (u64key k) s.logs)
      → get_log bolt (record s { logs = b }) k out
        ≡ (if inside then err log_not_found else get_log bolt s k out)
  unfolding get_log
  get_log-of s k out b true h = rw (h, get_log) refl
  get_log-of s k out b false h = rw (h, get_log) refl

  -- In a log whose keys are those of uint64s, `DeleteRange` from a uint64 on succeeds; the indexes of
  -- the range are not found any more, and every other index that is a uint64 reads as before.
  pub get_log-delete_range :
      (s : Store bolt) (min max : ℕ) (out : Log)
      → min < 256 ^ 8
      → Keyed (bolt.entries s.logs)
      → (s' : Store bolt) × (delete_range bolt s min max ≡ (s', ok tt))
        × ((k : ℕ)
            → k < 256 ^ 8
            → get_log bolt s' k out
              ≡ (if leb min k && leb k max then err log_not_found else get_log bolt s k out))
  unfolding delete_range
  get_log-delete_range s min max out small keyed = elim (Bool-cases (ltb max min)) [
    | inl e ↦ (
      s,
      rw e refl,
      λ k h. let outside : (leb min k && leb k max) ≡ false = ground arith in rw outside refl,
    )
    | inr e ↦
        let (b, f, at_key) = range-get min max s.logs small keyed in
        (
          record s { logs = b },
          rw (e, delete_range) (rw f refl),
          λ k h. get_log-of s k out b (leb min k && leb k max) (at_key k h),
        )
  ]
