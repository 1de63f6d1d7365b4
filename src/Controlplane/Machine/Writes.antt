-- ===== src/Controlplane/Machine/Writes.antt =====
-- What a command of `Apply` in internal/controlplane/fsm.go writes: the revision it leads to, the
-- values behind its operations, and when its writes fail.
use mathlib.Core.List.{Memᴰ}
use bpc.Base.{
  ℕ, ◌+◌, ◌≤◌, ◌<◌, ◌^◌, false, List, [], ◌∷◌, ltb, ◌==◌, length, Bytes, bytes_eq, bytes_eq_iff,
  none, some, Option-cases, Bool-cases, inl, inr, ◌≡◌, ◌≢◌, ◌⊎◌, refl, sym, ◌∙◌, ap, arith,
}
use bpc.Controlplane.Bolt.{Bolt}
use bpc.Controlplane.Command.{Operation, Mutation, put_op, delete_op, reconcile_kind}
use bpc.Controlplane.Machine.{
  Outside, ApplyError, store_failed, revision_exhausted, max_revision, next_revision, put_operation,
  put_operations,
}
use bpc.Controlplane.Ownership.Records.{effect_of, effects_of}

-- A reconciliation raises the revision to the minimum it names; any other command counts it up.
pub data NextRevision (c : Mutation) (current next : ℕ) : Type 0 where
  keeps :
      c.kind ≡ reconcile_kind
      → c.revision_minimum ≤ current
      → next ≡ current
      → NextRevision c current next
  raises :
      c.kind ≡ reconcile_kind
      → current < c.revision_minimum
      → next ≡ c.revision_minimum
      → NextRevision c current next
  counts :
      c.kind ≢ reconcile_kind
      → current ≢ max_revision
      → next ≡ current + 1
      → NextRevision c current next

pub next_revision-some :
    (c : Mutation) (current next : ℕ)
    → next_revision c current ≡ some next
    → NextRevision c current next
unfolding next_revision
next_revision-some c current next h = elim (Bool-cases (bytes_eq c.kind reconcile_kind)) [
  | inl e ↦
      let kind = (bytes_eq_iff c.kind reconcile_kind).0 e in
      elim (Bool-cases (ltb current c.revision_minimum)) [
        | inl f ↦ raises kind (ground arith) (ground arith)
        | inr f ↦ keeps kind (ground arith) (ground arith)
      ]
  | inr e ↦
      counts (λ k. ground (arith, (bytes_eq_iff c.kind reconcile_kind).1 k)) (λ k. ground arith)
        (ground arith)
]

pub NextRevision-lt :
    (c : Mutation) (current next : ℕ)
    → current < 256 ^ 8
    → c.revision_minimum < 256 ^ 8
    → NextRevision c current next
    → next < 256 ^ 8
unfolding max_revision
NextRevision-lt c current next h k (keeps kind le e) = ground arith
NextRevision-lt c current next h k (raises kind lt e) = ground arith
NextRevision-lt c current next h k (counts kind other e) =
    let below : (current == max_revision) ≡ false = elim (Bool-cases (current == max_revision)) [
      | inr x ↦ x
      | inl x ↦ absurd (other (ground arith))
    ] in
    ground (arith, below)

-- A put that the database does not take: an empty or too long key, or too large a value.
pub Unwritable : Operation → Type 0
Unwritable o =
    (o.op ≡ put_op)
    × ((length o.path ≡ 0) ⊎ ((32768 < length o.path) ⊎ (2147483646 < length o.contents)))

-- Why a transaction fails that is no replay and has no conflict.
pub data Fails (c : Mutation) (ops : List Operation) (current : ℕ) : ApplyError → Type 0 where
  exhausted :
      c.kind ≢ reconcile_kind → current ≡ max_revision → Fails c ops current revision_exhausted
  unwritable : (o : Operation) → Memᴰ o ops → Unwritable o → Fails c ops current store_failed

pub next_revision-none :
    (c : Mutation) (ops : List Operation) (current : ℕ)
    → next_revision c current ≡ none
    → Fails c ops current revision_exhausted
unfolding next_revision
next_revision-none c ops current h = elim (Bool-cases (bytes_eq c.kind reconcile_kind)) [
  | inl e ↦ absurd (ground arith)
  | inr e ↦ exhausted (λ k. ground (arith, (bytes_eq_iff c.kind reconcile_kind).1 k)) (ground arith)
]

module _ (bolt : Bolt) (out : Outside) where
  open bolt use {Bucket, get, put, delete}

  get-put_operation :
      (k : Bytes) (o : Operation) (b b' : bolt.Bucket)
      → put_operation bolt out o b ≡ some b'
      → bolt.get k b' ≡ effect_of k o (bolt.get k b)
  unfolding put_operation effect_of
  get-put_operation k o b b' h = elim (Bool-cases (bytes_eq o.op put_op)) [
    | inl e ↦
        let done : bolt.put o.path o.contents b ≡ some b' = ground arith in
        rw e (bolt.get-put o.path o.contents b b' done k)
    | inr e ↦ elim (Bool-cases (bytes_eq o.op delete_op)) [
      | inl f ↦
          let done : bolt.delete o.path b ≡ some b' = ground arith in
          rw (e, f) (bolt.get-delete o.path b b' done k)
      | inr f ↦ let same : b ≡ b' = ground arith in rw (e, f) (ground (arith, ap (bolt.get k) same))
    ]
  ]

  -- The canonical state behind the writes of a command.
  pub get-put_operations :
      (k : Bytes) (ops : List Operation) (b b' : bolt.Bucket)
      → put_operations bolt out ops b ≡ some b'
      → bolt.get k b' ≡ effects_of k ops (bolt.get k b)
  unfolding put_operations effects_of
  get-put_operations k [] b b' h = let same : b ≡ b' = ground arith in ap (bolt.get k) (sym same)
  get-put_operations k (o ∷ ops) b b' h = elim (Option-cases (put_operation bolt out o b)) [
    | inl e ↦ absurd (ground arith)
    | inr (c, e) ↦
        get-put_operations k ops c b' (rw (e, put_operations) at h)
        ∙ ap (effects_of k ops) (get-put_operation k o b c e)
  ]

  put_operation-none :
      (o : Operation) (b : Bucket) → put_operation bolt out o b ≡ none → Unwritable o
  unfolding put_operation Unwritable
  put_operation-none o b h = elim (Bool-cases (bytes_eq o.op put_op)) [
    | inl e ↦ (
      (bytes_eq_iff o.op put_op).0 e,
      elim (Bool-cases (length o.path == 0)) [
        | inl f ↦ inl (ground arith)
        | inr f ↦ elim (Bool-cases (ltb 32768 (length o.path))) [
          | inl g ↦ inr (inl (ground arith))
          | inr g ↦ elim (Bool-cases (ltb 2147483646 (length o.contents))) [
            | inl i ↦ inr (inr (ground arith))
            | inr i ↦
                let (b', done) =
                  bolt.put_total o.path o.contents b (ground arith) (ground arith) (ground arith) in
                absurd (ground arith)
          ]
        ]
      ],
    )
    | inr e ↦ elim (Bool-cases (bytes_eq o.op delete_op)) [
      | inl f ↦ let (b', done) = bolt.delete_total o.path b in absurd (ground arith)
      | inr f ↦ absurd (ground arith)
    ]
  ]

  -- The writes of a command fail only at a put that the database does not take.
  pub put_operations-none :
      (ops : List Operation) (b : Bucket)
      → put_operations bolt out ops b ≡ none
      → (o : Operation) × Memᴰ o ops × Unwritable o
  unfolding put_operations
  put_operations-none [] b h = absurd (ground arith)
  put_operations-none (o ∷ os) b h = elim (Option-cases (put_operation bolt out o b)) [
    | inl e ↦ (o, Memᴰ.head refl, put_operation-none o b e)
    | inr (c, e) ↦
        let (p, m, bad) = put_operations-none os c (rw (e, put_operations) at h) in
        (p, Memᴰ.tail m, bad)
  ]
