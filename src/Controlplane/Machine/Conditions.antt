-- ===== src/Controlplane/Machine/Conditions.antt =====
-- The preconditions of `Apply` in internal/controlplane/fsm.go, told without the code.
use mathlib.Core.Path.{subst}
use bpc.Base.{
  ◌<◌, true, List, [], ◌∷◌, length, All, Bytes, bytes_eq_iff, none, some, ok, err, Result-cases,
  Option-cases, Bool-cases, inl, inr, ◌≡◌, ◌≢◌, arith,
}
use bpc.Base.Hex.{hex_encode, to_lower}
use bpc.Controlplane.Bolt.{Bolt}
use bpc.Controlplane.Command.{Operation}
use bpc.Controlplane.Ownership.{OwnershipError, validate_route_ownership}
use bpc.Controlplane.Machine.{
  Outside, Conflict, already_exists, does_not_exist, precondition_failed, ownership, precondition,
  preconditions, conflict_of,
}

module _ (bolt : Bolt) (out : Outside) where
  open bolt use {Bucket, get, put, delete}

  -- The state lets the operation be.
  pub record Meets (canonical : Bucket) (o : Operation) : Type 0 where
    pub absent : o.if_absent ≡ true → get o.path canonical ≡ none
    pub present : o.require_present ≡ true → (v : Bytes) × (get o.path canonical ≡ some v)
    pub unchanged :
        0 < length o.expected_sha256
        → (v : Bytes) × (get o.path canonical ≡ some v)
          × (hex_encode (out.sha256 v) ≡ to_lower o.expected_sha256)

  -- Why it does not.
  pub data Breaks (canonical : Bucket) (o : Operation) : Conflict → Type 0 where
    is_there :
        (v : Bytes)
        → get o.path canonical ≡ some v
        → o.if_absent ≡ true
        → Breaks canonical o (already_exists o.path)
    is_missing :
        get o.path canonical ≡ none
        → o.require_present ≡ true
        → Breaks canonical o (does_not_exist o.path)
    is_gone :
        get o.path canonical ≡ none
        → 0 < length o.expected_sha256
        → Breaks canonical o (precondition_failed o.path)
    is_changed :
        (v : Bytes)
        → get o.path canonical ≡ some v
        → 0 < length o.expected_sha256
        → hex_encode (out.sha256 v) ≢ to_lower o.expected_sha256
        → Breaks canonical o (precondition_failed o.path)

  -- The first operation that the state does not let be.
  pub data FirstBreak (canonical : Bucket) : List Operation → Conflict → Type 0 where
    here :
        (o : Operation) (os : List Operation) (why : Conflict)
        → Breaks canonical o why
        → FirstBreak canonical (o ∷ os) why
    later :
        (o : Operation) (os : List Operation) (why : Conflict)
        → Meets canonical o
        → FirstBreak canonical os why
        → FirstBreak canonical (o ∷ os) why

  pub data Refused (canonical : Bucket) (ops : List Operation) : Conflict → Type 0 where
    unmet : (why : Conflict) → FirstBreak canonical ops why → Refused canonical ops why
    not_owned :
        (e : OwnershipError)
        → All (Meets canonical) ops
        → validate_route_ownership bolt out.json out.sorter canonical ops ≡ err e
        → Refused canonical ops (ownership e)

  precondition-none :
      (canonical : Bucket) (o : Operation)
      → precondition bolt out canonical o ≡ none
      → Meets canonical o
  unfolding precondition
  precondition-none canonical o h = elim (Option-cases (get o.path canonical)) [
    | inl e ↦ record {
      absent = λ k. e;
      present = λ k. absurd (ground arith);
      unchanged = λ k. absurd (ground arith);
    }
    | inr (v, e) ↦
        let same = bytes_eq_iff (hex_encode (out.sha256 v)) (to_lower o.expected_sha256) in
        record {
          absent = λ k. absurd (ground arith);
          present = λ k. (v, e);
          unchanged = λ k. (v, e, same.0 (ground arith));
        }
  ]

  precondition-some :
      (canonical : Bucket) (o : Operation) (why : Conflict)
      → precondition bolt out canonical o ≡ some why
      → Breaks canonical o why
  unfolding precondition
  precondition-some canonical o why h = elim (Option-cases (get o.path canonical)) [
    | inl e ↦ elim (Bool-cases o.require_present) [
      | inl f ↦
          let same : does_not_exist o.path ≡ why = ground arith in
          subst (Breaks canonical o) same (is_missing e f)
      | inr f ↦
          let same : precondition_failed o.path ≡ why = ground arith in
          subst (Breaks canonical o) same (is_gone e (ground arith))
    ]
    | inr (v, e) ↦ elim (Bool-cases o.if_absent) [
      | inl f ↦
          let same : already_exists o.path ≡ why = ground arith in
          subst (Breaks canonical o) same (is_there v e f)
      | inr f ↦
          let other = bytes_eq_iff (hex_encode (out.sha256 v)) (to_lower o.expected_sha256) in
          let same : precondition_failed o.path ≡ why = ground arith in
          subst (Breaks canonical o) same
            (is_changed v e (ground arith) (λ k. ground (arith, other.1 k)))
    ]
  ]

  preconditions-none :
      (canonical : Bucket) (ops : List Operation)
      → preconditions bolt out canonical ops ≡ none
      → All (Meets canonical) ops
  unfolding preconditions
  preconditions-none canonical [] h = tt
  preconditions-none canonical (o ∷ os) h =
      elim (Option-cases (precondition bolt out canonical o)) [
        | inr (why, e) ↦ absurd (ground arith)
        | inl e ↦ (
          precondition-none canonical o e,
          preconditions-none canonical os (rw (e, preconditions) at h),
        )
      ]

  preconditions-some :
      (canonical : Bucket) (ops : List Operation) (why : Conflict)
      → preconditions bolt out canonical ops ≡ some why
      → FirstBreak canonical ops why
  unfolding preconditions
  preconditions-some canonical [] why h = absurd (ground arith)
  preconditions-some canonical (o ∷ os) why h =
      elim (Option-cases (precondition bolt out canonical o)) [
        | inr (w, e) ↦
            let same : w ≡ why = ground arith in
            here o os why (subst (Breaks canonical o) same (precondition-some canonical o w e))
        | inl e ↦
            later o os why (precondition-none canonical o e)
              (preconditions-some canonical os why (rw (e, preconditions) at h))
      ]

  -- A command without conflicts meets its preconditions and passes the check of the owners.
  pub conflict_of-none :
      (canonical : Bucket) (ops : List Operation)
      → conflict_of bolt out canonical ops ≡ none
      → All (Meets canonical) ops
        × (validate_route_ownership bolt out.json out.sorter canonical ops ≡ ok tt)
  unfolding conflict_of
  conflict_of-none canonical ops h = elim (Option-cases (preconditions bolt out canonical ops)) [
    | inr (c, e) ↦ absurd (ground arith)
    | inl e ↦
        elim (Result-cases (validate_route_ownership bolt out.json out.sorter canonical ops)) [
          | inl (u, f) ↦ (preconditions-none canonical ops e, f)
          | inr (x, f) ↦ absurd (ground arith)
        ]
  ]

  pub conflict_of-some :
      (canonical : Bucket) (ops : List Operation) (why : Conflict)
      → conflict_of bolt out canonical ops ≡ some why
      → Refused canonical ops why
  unfolding conflict_of
  conflict_of-some canonical ops why h =
      elim (Option-cases (preconditions bolt out canonical ops)) [
        | inr (c, e) ↦
            let same : c ≡ why = ground arith in
            unmet why (preconditions-some canonical ops why (ground arith))
        | inl e ↦
            elim (Result-cases (validate_route_ownership bolt out.json out.sorter canonical ops)) [
              | inl (u, f) ↦ absurd (ground arith)
              | inr (x, f) ↦
                  let same : ownership x ≡ why = ground arith in
                  subst (Refused canonical ops) same
                    (not_owned x (preconditions-none canonical ops e) f)
            ]
      ]
