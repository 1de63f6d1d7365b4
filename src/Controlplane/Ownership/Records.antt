-- ===== src/Controlplane/Ownership/Records.antt =====
-- The records that a command results in, in internal/controlplane/fsm.go: what
-- `resultingPrefixRecords` computes is what the bucket holds behind the writes.
use bpc.Base.{
  true, false, not, List, [], ◌∷◌, if◌then◌else◌, Bytes, bytes_eq, bytes_eq_iff, bytes_lt,
  bytes_lt_transitive, has_prefix, has_prefix_between, has_prefix-bytes_lt, All, Option, none, some,
  Bool-cases, inl, inr, ◌≡◌, refl, sym, ◌∙◌, ap, arith,
}
use bpc.Base.Dict.{Dict, lookup, insert, delete, lookup-insert, lookup-delete}
use bpc.Controlplane.Bolt.{Bolt, Ascending}
use bpc.Controlplane.Store.{seek}
use bpc.Controlplane.Command.{Operation, put_op, delete_op}
use bpc.Controlplane.Ownership.{take_prefixed, apply_to_records, resulting_prefix_records}

-- What an operation, and a list of them, makes of the value at a key.
unfoldable pub effect_of : Bytes → Operation → Option Bytes → Option Bytes
effect_of k o x =
    if bytes_eq o.path k
    then (if bytes_eq o.op put_op
        then some o.contents
        else if bytes_eq o.op delete_op
        then none
        else x)
    else x

unfoldable pub effects_of : Bytes → List Operation → Option Bytes → Option Bytes
effects_of k [] x = x
effects_of k (o ∷ os) x = effects_of k os (effect_of k o x)

-- No key comes before the prefix.
NotBefore : Bytes → Dict Bytes → Type 0
NotBefore p m = All (λ e. bytes_lt e.0 p ≡ false) m

above-NotBefore :
    (p k : Bytes) (m : Dict Bytes)
    → bytes_lt k p ≡ false
    → All (λ e. bytes_lt k e.0 ≡ true) m
    → NotBefore p m
unfolding NotBefore
above-NotBefore p k [] h a = tt
above-NotBefore p k ((j, v) ∷ m) h a =
    (ground (arith, bytes_lt_transitive k j p), above-NotBefore p k m h a.1)

seek-NotBefore : (p : Bytes) (m : Dict Bytes) → Ascending m → NotBefore p (seek p m)
unfolding seek NotBefore
seek-NotBefore p [] h = tt
seek-NotBefore p ((k, v) ∷ m) h = elim (Bool-cases (bytes_lt k p)) [
  | inl e ↦ rw e (seek-NotBefore p m h.1)
  | inr e ↦ rw e (e, above-NotBefore p k m e h.0)
]

seek-Ascending : (p : Bytes) (m : Dict Bytes) → Ascending m → Ascending (seek p m)
unfolding seek
seek-Ascending p [] h = tt
seek-Ascending p ((k, v) ∷ m) h = elim (Bool-cases (bytes_lt k p)) [
  | inl e ↦ rw e (seek-Ascending p m h.1)
  | inr e ↦ rw e h
]

lookup-seek :
    (p k : Bytes) (m : Dict Bytes) → has_prefix k p ≡ true → lookup k (seek p m) ≡ lookup k m
unfolding seek lookup
lookup-seek p k [] h = refl
lookup-seek p k ((j, v) ∷ m) h = elim (Bool-cases (bytes_lt j p)) [
  | inl e ↦
      let differ : bytes_eq j k ≡ false =
        ground (arith, bytes_eq_iff j k, has_prefix-bytes_lt p k h) in
      rw (e, differ) (lookup-seek p k m h)
  | inr e ↦ rw e refl
]

-- Behind the first key without the prefix there is none with it.
lookup_behind :
    (p j k : Bytes) (m : Dict Bytes)
    → has_prefix j p ≡ false
    → bytes_lt j p ≡ false
    → has_prefix k p ≡ true
    → All (λ e. bytes_lt j e.0 ≡ true) m
    → lookup k m ≡ none
unfolding lookup
lookup_behind p j k [] no_prefix after h a = refl
lookup_behind p j k ((i, v) ∷ m) no_prefix after h a =
    let differ : bytes_eq i k ≡ false =
      ground (arith, bytes_eq_iff i k, has_prefix_between p j i after a.0) in
    rw differ (lookup_behind p j k m no_prefix after h a.1)

lookup-take_prefixed :
    (p k : Bytes) (m : Dict Bytes)
    → has_prefix k p ≡ true
    → Ascending m
    → NotBefore p m
    → lookup k (take_prefixed p m) ≡ lookup k m
unfolding take_prefixed lookup NotBefore
lookup-take_prefixed p k [] h asc nb = refl
lookup-take_prefixed p k ((j, v) ∷ m) h asc nb = elim (Bool-cases (has_prefix j p)) [
  | inl e ↦
      rw e (ap (λ x. if bytes_eq j k then some v else x) (lookup-take_prefixed p k m h asc.1 nb.1))
  | inr e ↦
      let differ : bytes_eq j k ≡ false = ground (arith, bytes_eq_iff j k) in
      rw (e, differ) (sym (lookup_behind p j k m e nb.0 h asc.0))
]

lookup-apply_to_records :
    (p k : Bytes) (ops : List Operation) (m : Dict Bytes)
    → has_prefix k p ≡ true
    → lookup k (apply_to_records p ops m) ≡ effects_of k ops (lookup k m)
unfolding apply_to_records effects_of
lookup-apply_to_records p k [] m h = refl
lookup-apply_to_records p k (o ∷ ops) m h =
    lookup-apply_to_records p k ops _ h ∙ ap (effects_of k ops) (step o m)
  where
    step :
        (o : Operation) (m : Dict Bytes)
        → lookup k (
            if not (has_prefix o.path p)
            then m
            else if bytes_eq o.op put_op
            then insert o.path o.contents m
            else if bytes_eq o.op delete_op
            then delete o.path m
            else m)
          ≡ effect_of k o (lookup k m)
    step o m =
        unfold effect_of in
        ground (
          arith,
          bytes_eq_iff o.path k,
          lookup-insert o.path k o.contents m,
          lookup-delete o.path k m,
        )

-- The record at a key with the prefix.
pub lookup-resulting :
    (bolt : Bolt) (canonical : bolt.Bucket) (p k : Bytes) (ops : List Operation)
    → has_prefix k p ≡ true
    → lookup k (resulting_prefix_records bolt canonical p ops)
      ≡ effects_of k ops (bolt.get k canonical)
unfolding resulting_prefix_records
lookup-resulting bolt canonical p k ops h =
    let m = bolt.entries canonical in
    let asc = bolt.entries-Ascending canonical in
    lookup-apply_to_records p k ops (take_prefixed p (seek p m)) h
    ∙ ap (effects_of k ops) (
        lookup-take_prefixed p k (seek p m) h (seek-Ascending p m asc) (seek-NotBefore p m asc)
        ∙ lookup-seek p k m h
        ∙ bolt.lookup-entries k canonical)
