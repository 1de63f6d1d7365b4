-- ===== src/Routed/Selection.antt =====
-- internal/routed/router.go: path scores and `choosePath`, with what it asks of the mesh
-- (`MeshTransport`) and `LinkStatus` of internal/routed/mesh.go. Times are nanoseconds; the zero
-- `time.Time` is `none`, and a duration since it is longer than any interval.
pub mod Candidates
pub mod Choice
mod Tests
use bpc.Base.{
  ℕ, ◌+◌, ◌*◌, Bool, true, false, not, ◌&&◌, ◌||◌, List, [], ◌∷◌, ◌++◌, ltb, if◌then◌else◌, length,
  get_or, Bytes, bytes_eq, bytes_lt, codes, Option, none, some, Result, ok, err,
}
use bpc.Base.Int.{ℤ}
use bpc.Base.Float.{Float}
use bpc.Base.Sort.{Sorter}
use bpc.Base.Dict.{Dict, lookup, insert}
use bpc.Routed.Config.{RoutePath, Route}

pub record LinkStatus (F : Type 0) : Type 0 where
  pub id : Bytes
  pub from : Bytes
  pub to : Bytes
  pub peer_name : Bytes
  pub health : Bytes
  pub rtt_ms : F
  pub loss_percent : F
  pub cost : F
  pub last_seen : ℤ
  pub endpoint : Bytes

-- `CanSend` and `LinkStatus` as they answer during one call.
pub record MeshView (F : Type 0) : Type 0 where
  pub can_send : Bytes → Bool
  pub link_status : Bytes → Option (LinkStatus F)

pub record PathAvailability : Type 0 where
  pub viable : Bool
  pub recovered_at : Option ℕ

pub record RouteSelection : Type 0 where
  pub availability : Dict PathAvailability
  pub current_id : Bytes
  pub last_switch : Option ℕ
  pub candidate_id : Bytes
  pub candidate_since : Option ℕ

abbrev pub new_selection : RouteSelection
new_selection = record {
  availability = [];
  current_id = [];
  last_switch = none;
  candidate_id = [];
  candidate_since = none;
}

-- 5 and 10 seconds.
abbrev pub path_stable_interval : ℕ
path_stable_interval = 5000000000

abbrev pub path_recovery_cooldown : ℕ
path_recovery_cooldown = 10000000000

-- `now.Sub(since) < interval`
abbrev pub within : Option ℕ → ℕ → ℕ → Bool
within none now interval = false
within (some since) now interval = ltb now (since + interval)

pub route_key : Route → Bytes
route_key route = route.owner_node_id ++ (codes "|" ++ route.cidr)

degraded_or_unknown : Bytes → Bool
degraded_or_unknown health = bytes_eq health (codes "degraded") || bytes_eq health (codes "unknown")

module _ (fl : Float) where
  open fl use {F, of_ℕ, add, sub, mul, lt, eq}

  pub path_minimum_improvement : F
  path_minimum_improvement = of_ℕ 15

  base_score : RoutePath F → F
  unfolding degraded_or_unknown
  base_score p =
      let measured = add (add p.cost p.rtt_ms) (mul p.loss_percent (of_ℕ 10)) in
      if eq p.score (of_ℕ 0)
      then (if degraded_or_unknown p.health then add measured (of_ℕ 1000) else measured)
      else p.score

  unfoldable pub path_score : RoutePath F → Option (LinkStatus F) → F
  unfolding base_score degraded_or_unknown
  path_score p none = base_score p
  path_score p (some status) =
      let score = add (base_score p) (add status.rtt_ms (mul status.loss_percent (of_ℕ 10))) in
      if degraded_or_unknown status.health then add score (of_ℕ 100) else score

  failed_link : Option (LinkStatus F) → Bool
  failed_link none = false
  failed_link (some status) = bytes_eq status.health (codes "failed")

  unfoldable pub viable_path : MeshView F → Bytes → RoutePath F → Option F
  unfolding failed_link
  viable_path mesh local_node_id p =
      let first = get_or p.hops 1 [] in
      let status = mesh.link_status first in
      if ltb (length p.hops) 2
        || (not (bytes_eq (get_or p.hops 0 []) local_node_id) || bytes_eq p.health (codes "failed"))
      then none
      else if not (mesh.can_send first)
      then none
      else if failed_link status
      then none
      else some (path_score p status)

  pub record Scored : Type 0 where
    pub path : RoutePath F
    pub score : F

  -- What a path's last look has left in the availability map, with a fresh look at it.
  observe : Option PathAvailability → Bool → ℕ → PathAvailability
  observe none viable now = record { viable = viable; recovered_at = none }
  observe (some prior) viable now = record {
    viable = viable;
    recovered_at = if viable && not prior.viable then some now else prior.recovered_at;
  }

  is_viable : Option F → Bool
  is_viable none = false
  is_viable (some score) = true

  -- The loop over the paths: the availability that it leaves, and the candidates.
  observe_paths :
      MeshView F → Bytes → ℕ → Dict PathAvailability → List (RoutePath F) → Dict PathAvailability
  unfolding observe is_viable
  observe_paths mesh local_node_id now seen [] = seen
  observe_paths mesh local_node_id now seen (p ∷ ps) =
      let look = observe (lookup p.id seen) (is_viable (viable_path mesh local_node_id p)) now in
      observe_paths mesh local_node_id now (insert p.id look seen) ps

  unfoldable pub candidates_of : MeshView F → Bytes → List (RoutePath F) → List Scored
  candidates_of mesh local_node_id [] = []
  candidates_of mesh local_node_id (p ∷ ps) =
      let rest = candidates_of mesh local_node_id ps in
      elim (viable_path mesh local_node_id p) [
        | none ↦ rest
        | some score ↦ record { path = p; score = score } ∷ rest
      ]

  observed : Bytes → List (RoutePath F) → Bool
  observed id [] = false
  observed id (p ∷ ps) = bytes_eq p.id id || observed id ps

  -- The loop over the availability map: what was not looked at is not viable.
  forget_others : List (RoutePath F) → Dict PathAvailability → Dict PathAvailability
  unfolding observed
  forget_others ps [] = []
  forget_others ps ((id, prior) ∷ m) =
      (id, if observed id ps then prior else record prior { viable = false }) ∷ forget_others ps m

  abbrev pub better : Scored → Scored → Bool
  better a b = if eq a.score b.score then bytes_lt a.path.id b.path.id else lt a.score b.score

  unfoldable pub find_current : Bytes → List Scored → Option Scored
  find_current id [] = none
  find_current id (s ∷ ss) =
      let rest = find_current id ss in if bytes_eq s.path.id id then some s else rest

  switch_to : RouteSelection → RoutePath F → ℕ → RouteSelection
  switch_to state p now = record state {
    current_id = p.id;
    last_switch = some now;
    candidate_id = [];
    candidate_since = none;
  }

  clear_candidate : RouteSelection → RouteSelection
  clear_candidate state = record state { candidate_id = []; candidate_since = none }

  recovering : Option PathAvailability → ℕ → Bool
  recovering none now = false
  recovering (some a) now = within a.recovered_at now path_recovery_cooldown

  -- From `best := candidates[0]` on, where the current path is a candidate and not the best.
  pub challenge : RouteSelection → Scored → Scored → ℕ → RouteSelection × RoutePath F
  unfolding switch_to clear_candidate recovering path_minimum_improvement
  challenge state current best now =
      if within state.last_switch now path_recovery_cooldown
      then (state, current.path)
      else if lt (sub current.score best.score) path_minimum_improvement
      then (clear_candidate state, current.path)
      else if not (bytes_eq state.candidate_id best.path.id)
      then (record state { candidate_id = best.path.id; candidate_since = some now }, current.path)
      else if recovering (lookup best.path.id state.availability) now
          || within state.candidate_since now path_stable_interval
      then (state, current.path)
      else (switch_to state best.path now, best.path)

  -- With the candidates sorted.
  unfoldable pub select : RouteSelection → List Scored → ℕ → RouteSelection × Option (RoutePath F)
  unfolding switch_to clear_candidate
  select state [] now = (clear_candidate state, none)
  select state (best ∷ others) now = elim (find_current state.current_id (best ∷ others)) [
    | none ↦ (switch_to state best.path now, some best.path)
    | some current ↦
        if bytes_eq best.path.id current.path.id
        then (clear_candidate state, some current.path)
        else let (state', path) = challenge state current best now in (state', some path)
  ]

  -- `choosePath` on the state of the route; `none` is the error "no healthy end-to-end path".
  unfoldable pub choose_path :
      Sorter
      → MeshView F
      → Bytes
      → RouteSelection
      → List (RoutePath F)
      → ℕ
      → RouteSelection × Option (RoutePath F)
  unfolding observe_paths forget_others
  choose_path sorter mesh local_node_id state paths now =
      let seen = observe_paths mesh local_node_id now state.availability paths in
      select (record state { availability = forget_others paths seen })
        (sorter.sort better (candidates_of mesh local_node_id paths)) now
