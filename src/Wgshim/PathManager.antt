-- ===== src/Wgshim/PathManager.antt =====
-- internal/wgshim/path.go: the choice among the endpoints of a tunnel. A time is its nanoseconds, and
-- `none` is the zero time; an index of -1 is `none`. `none` as a whole answer is the panic of an
-- index out of range.
pub mod Select
pub mod Best
pub mod Outcomes
pub mod Switch
pub mod Range
pub mod Runs
mod Tests
use bpc.Base.{
  ℕ, ◌+◌, ◌-◌, ◌*◌, ◌/◌, ◌%◌, ◌^◌, Bool, true, false, not, ◌&&◌, ◌||◌, List, [], ◌∷◌, ◌++◌, zero,
  suc, ltb, leb, ◌==◌, if◌then◌else◌, map, length, take, drop, get_elem?, get_or, set, Bytes,
  bytes_eq, Option, none, some,
}
use bpc.Base.Int.{ℤ, pos, negsuc}
use bpc.Base.Float.{Float}
use bpc.Base.Sort.{Sorter}

abbrev pub millisecond : ℕ
millisecond = 1000000

abbrev pub second : ℕ
second = 1000000000

-- `D` is the type of a duration and of a number: before `defaults` they may be negative.
pub record PathPolicy (D : Type 0) : Type 0 where
  pub minimum_improvement : D
  pub minimum_stable_duration : D
  pub failure_penalty : D
  pub recovery_cooldown : D
  pub failure_threshold : D

or_default : ℤ → ℕ → ℕ
or_default (pos zero) d = d
or_default (pos (suc n)) d = suc n
or_default (negsuc n) d = d

pub defaults : PathPolicy ℤ → PathPolicy ℕ
unfolding or_default
defaults p = record {
  minimum_improvement = or_default p.minimum_improvement (15 * millisecond);
  minimum_stable_duration = or_default p.minimum_stable_duration (5 * second);
  failure_penalty = or_default p.failure_penalty (250 * millisecond);
  recovery_cooldown = or_default p.recovery_cooldown (10 * second);
  failure_threshold = or_default p.failure_threshold 2;
}

-- `PathHealth` with the fields of `pathState`; `Node` is left out, nothing here writes it.
pub record PathState (F : Type 0) : Type 0 where
  pub endpoint : Bytes
  pub reachable : Bool
  pub rtt_ms : F
  pub loss_percent : F
  pub jitter_ms : F
  pub last_success : Option ℕ
  pub failure_count : ℕ
  pub consecutive_failures : ℕ
  pub last_traffic : Option ℕ
  pub samples : List Bool
  pub last_rtt : ℕ
  pub failed_at : Option ℕ
  pub recovered_at : Option ℕ

pub data State : Type 0 where
  probing failed standby active_state verifying : State

pub record PathManager (F : Type 0) : Type 0 where
  pub policy : PathPolicy ℕ
  pub paths : List (PathState F)
  pub active : ℕ
  pub candidate : Option ℕ
  pub candidate_since : Option ℕ
  pub migrating_from : Option ℕ
  pub migration_started : Option ℕ

pub is_set : {A : Type 0} → Option A → Bool
is_set none = false
is_set (some a) = true

-- `now.Sub(since) < interval`, and `interval < now.Sub(since)`.
abbrev pub since_lt : ℕ → ℕ → ℕ → Bool
since_lt now since interval = ltb now (since + interval)

abbrev pub since_gt : ℕ → ℕ → ℕ → Bool
since_gt now since interval = ltb (since + interval) now

-- One reply for each probe that was answered, up to the number that was sent.
round_samples : ℕ → ℕ → List Bool
round_samples zero replies = []
round_samples (suc sent) zero = false ∷ round_samples sent zero
round_samples (suc sent) (suc replies) = true ∷ round_samples sent replies

-- The last 32.
pub add_samples : List Bool → ℕ → ℕ → List Bool
unfolding round_samples
add_samples samples sent replies =
    let all = samples ++ round_samples sent replies in
    if ltb 32 (length all) then drop (length all - 32) all else all

lost : List Bool → ℕ
lost [] = 0
lost (true ∷ samples) = lost samples
lost (false ∷ samples) = suc (lost samples)

distance : ℕ → ℕ → ℕ
distance a b = if ltb a b then b - a else a - b

pub index_of : ℤ → Option ℕ
index_of (pos n) = some n
index_of (negsuc n) = none

module _ (float : Float) where
  open float use {F, of_ℕ, add, sub, mul, div, lt, eq}

  in_ms : ℕ → F
  in_ms d = div (of_ℕ d) (of_ℕ millisecond)

  -- `.75 * old + .25 * new`
  smooth : F → F → F
  smooth old new = add (mul (div (of_ℕ 3) (of_ℕ 4)) old) (mul (div (of_ℕ 1) (of_ℕ 4)) new)

  pub new_path : Bytes → PathState F
  new_path endpoint = record {
    endpoint = endpoint;
    reachable = false;
    rtt_ms = of_ℕ 0;
    loss_percent = of_ℕ 0;
    jitter_ms = of_ℕ 0;
    last_success = none;
    failure_count = 0;
    consecutive_failures = 0;
    last_traffic = none;
    samples = [];
    last_rtt = 0;
    failed_at = none;
    recovered_at = none;
  }

  pub new_path_manager : List Bytes → PathPolicy ℤ → PathManager F
  new_path_manager endpoints policy = record {
    policy = defaults policy;
    paths = map new_path endpoints;
    active = 0;
    candidate = none;
    candidate_since = none;
    migrating_from = none;
    migration_started = none;
  }

  -- The loop over the replies: the jitter and the last round-trip time.
  add_jitter : List ℕ → F → ℕ → F × ℕ
  unfolding in_ms smooth distance
  add_jitter [] jitter last = (jitter, last)
  add_jitter (rtt ∷ replies) jitter last =
      add_jitter replies (if last == 0 then jitter else smooth jitter (in_ms (distance rtt last)))
        rtt

  -- The samples, the loss and the failures of a round.
  count_round : PathState F → ℕ → List ℕ → PathState F
  unfolding lost
  count_round p sent replies =
      let samples = add_samples p.samples sent (length replies) in
      record p {
        samples = samples;
        loss_percent = div (mul (of_ℕ 100) (of_ℕ (lost samples))) (of_ℕ (length samples));
        failure_count = (p.failure_count + (sent - length replies)) % 2 ^ 64;
      }

  -- A round without a reply.
  miss_round : PathState F → ℕ → ℕ → PathState F
  miss_round p threshold now =
      let failures = suc p.consecutive_failures in
      if leb threshold failures
      then record p { consecutive_failures = failures; failed_at = some now; reachable = false }
      else record p { consecutive_failures = failures }

  -- What remains of the penalty of a failure.
  penalty : PathPolicy ℕ → Option ℕ → ℕ → F
  unfolding in_ms
  penalty policy none now = of_ℕ 0
  penalty policy (some at_time) now =
      let cooldown = of_ℕ policy.recovery_cooldown in
      let remaining =
        (if ltb now at_time
          then add (of_ℕ 1) (div (of_ℕ (at_time - now)) cooldown)
          else sub (of_ℕ 1) (div (of_ℕ (now - at_time)) cooldown)) in
      if lt (of_ℕ 0) remaining
      then div (mul remaining (of_ℕ policy.failure_penalty)) (of_ℕ millisecond)
      else of_ℕ 0

  pub score : PathPolicy ℕ → PathState F → ℕ → F
  unfolding penalty
  score policy p now =
      add (add (add p.rtt_ms (mul (of_ℕ 2) p.jitter_ms)) (mul (of_ℕ 3) p.loss_percent))
        (penalty policy p.failed_at now)

module _ (float : Float) (sorter : Sorter) where
  open float use {F, of_ℕ, eq}

  -- A round with replies.
  hear_round : PathState F → List ℕ → ℕ → PathState F
  unfolding add_jitter smooth in_ms
  hear_round p replies now =
      let (jitter, last) = add_jitter float replies p.jitter_ms p.last_rtt in
      let values = sorter.sort ltb replies in
      let rtt = in_ms float (get_or values (length values / 2) 0) in
      record p {
        recovered_at = if not p.reachable && is_set p.failed_at then some now else p.recovered_at;
        reachable = true;
        consecutive_failures = 0;
        last_success = some now;
        jitter_ms = jitter;
        last_rtt = last;
        rtt_ms = if eq p.rtt_ms (of_ℕ 0) then rtt else smooth float p.rtt_ms rtt;
      }

  pub observe_path : PathState F → PathPolicy ℕ → ℕ → List ℕ → ℕ → PathState F
  unfolding count_round miss_round hear_round
  observe_path p policy sent replies now =
      let counted = count_round float p sent (take sent replies) in
      if length (take sent replies) == 0
      then miss_round float counted policy.failure_threshold now
      else hear_round counted (take sent replies) now

  pub observe : PathManager F → ℤ → ℤ → List ℕ → ℕ → PathManager F
  observe m index (negsuc n) replies now = m
  observe m index (pos zero) replies now = m
  observe m index (pos (suc n)) replies now = elim (index_of index) [
    | none ↦ m
    | some i ↦ elim (get_elem? m.paths i) [
      | none ↦ m
      | some p ↦ record m { paths = set m.paths i (observe_path p m.policy (suc n) replies now) }
    ]
  ]
