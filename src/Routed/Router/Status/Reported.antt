-- ===== src/Routed/Router/Status/Reported.antt =====
-- What stands in the report of `SelectedPaths` of internal/routed/router.go.
use mathlib.Core.List.{Memᴰ}
use mathlib.Core.Path.{subst}
use bpc.Base.{
  ℕ, ◌/◌, ◌==◌, ◌||◌, ◌&&◌, not, true, List, [], ◌∷◌, ◌++◌, length, Bytes, bytes_eq, bytes_eq_iff,
  All, some, Option-cases, Bool-cases, inl, inr, ◌≡◌, ◌≢◌, ◌⊎◌, refl, sym, ◌∙◌, arith,
}
use bpc.Base.Sort.{Sorter, Memᴰ-All}
use bpc.Base.Float.{Float}
use bpc.Routed.Config.{Route, RoutePath, RoutingConfig, policy_valid, source_paths}
use bpc.Routed.Config.Sources.{IsSource, source_paths_iff}
use bpc.Routed.Selection.{MeshView, viable_path}
use bpc.Routed.Router.{Router, choose_for}
use bpc.Routed.Router.Origin.{choose_for-viable}
use bpc.Routed.Router.Status.{
  SelectedPathStatus, is_viable, standby_ids, status_of, report, select_routes, selected_paths,
}

module _ (fl : Float) (sorter : Sorter) (mesh : MeshView (fl.F)) where
  open fl use {F}

  -- An entry of the report: a viable configured path of a configured route.
  pub record IsReported (c : RoutingConfig F) (local : Bytes) (s : SelectedPathStatus F)
      : Type 0 where
    pub route : Route
    pub path : RoutePath F
    pub score : F
    pub configured : Memᴰ route c.routes
    pub source : IsSource c local route path
    pub viable : viable_path fl mesh local path ≡ some score
    pub of_route : (s.cidr ≡ route.cidr) × (s.owner_node_id ≡ route.owner_node_id)
    pub of_path : (s.path_id ≡ path.id) × (s.hops ≡ path.hops)
    pub standby : All (λ id. id ≢ path.id) s.standby_path_ids

  standby_ids-others :
      (local selected : Bytes) (ps : List (RoutePath F))
      → All (λ id. id ≢ selected) (standby_ids fl sorter mesh local selected ps)
  unfolding standby_ids
  standby_ids-others local selected [] = tt
  standby_ids-others local selected (p ∷ ps) = elim (Bool-cases (bytes_eq p.id selected)) [
    | inl e ↦ rw e (standby_ids-others local selected ps)
    | inr e ↦ elim (Bool-cases (is_viable fl sorter mesh local p)) [
      | inl v ↦
          rw (e, v)
            (
              (λ same. ground (arith, bytes_eq_iff p.id selected)),
              standby_ids-others local selected ps,
            )
      | inr v ↦ rw (e, v) (standby_ids-others local selected ps)
    ]
  ]

  -- One round keeps the configuration, and reports what it should.
  record Round (r : Router F) (route : Route) (now : ℕ) : Type 0 where
    config : (report fl sorter mesh r route now).0.config ≡ r.config
    local : (report fl sorter mesh r route now).0.local_node_id ≡ r.local_node_id
    entries :
        Memᴰ route r.config.routes
        → All (IsReported r.config r.local_node_id) (report fl sorter mesh r route now).1

  status-IsReported :
      (r : Router F) (route : Route) (now : ℕ) (p : RoutePath F)
      → (choose_for fl sorter mesh r route
          (source_paths fl sorter r.config r.local_node_id route)
          now).1
        ≡ some p
      → Memᴰ route r.config.routes
      → IsReported r.config r.local_node_id (
          status_of fl sorter mesh r route
            (source_paths fl sorter r.config r.local_node_id route)
            p)
  unfolding status_of
  status-IsReported r route now p chosen m =
      let paths = source_paths fl sorter r.config r.local_node_id route in
      let (n, (score, viable)) = choose_for-viable fl sorter mesh r route paths now p chosen in
      record {
        route = route;
        path = p;
        score = score;
        configured = m;
        source = (source_paths_iff fl sorter r.config r.local_node_id route p).0 n;
        viable = viable;
        of_route = (refl, refl);
        of_path = (refl, refl);
        standby = standby_ids-others r.local_node_id p.id paths;
      }

  round : (r : Router F) (route : Route) (now : ℕ) → Round r route now
  unfolding report choose_for
  round r route now =
      let paths = source_paths fl sorter r.config r.local_node_id route in
      elim (Bool-cases (length paths == 0)) [
        | inl z ↦
            let e : report fl sorter mesh r route now ≡ (r, []) = ground arith in
            record { config = rw e refl; local = rw e refl; entries = λ m. rw e tt }
        | inr z ↦ elim (Option-cases (choose_for fl sorter mesh r route paths now).1) [
          | inl none_left ↦
              let e : report fl sorter mesh r route now
                  ≡ ((choose_for fl sorter mesh r route paths now).0, []) =
                rw (z, none_left, report) refl in
              record { config = rw e refl; local = rw e refl; entries = λ m. rw e tt }
          | inr (p, chosen) ↦
              let e : report fl sorter mesh r route now ≡ (
                (choose_for fl sorter mesh r route paths now).0,
                status_of fl sorter mesh r route paths p ∷ [],
              ) =
                rw (z, chosen, report) refl in
              record {
                config = rw e refl;
                local = rw e refl;
                entries = λ m. rw e (status-IsReported r route now p chosen m, tt);
              }
        ]
      ]

  All-append :
      (P : SelectedPathStatus F → Type 0) (xs ys : List (SelectedPathStatus F))
      → All P xs
      → All P ys
      → All P (xs ++ ys)
  All-append P [] ys h k = k
  All-append P (x ∷ xs) ys h k = (h.0, All-append P xs ys h.1 k)

  select_routes-IsReported :
      (c : RoutingConfig F) (local : Bytes) (r : Router F) (routes : List Route) (now : ℕ)
      → r.config ≡ c
      → r.local_node_id ≡ local
      → All (λ route. Memᴰ route c.routes) routes
      → All (IsReported c local) (select_routes fl sorter mesh r routes now).1
  unfolding select_routes
  select_routes-IsReported c local r [] now same id m = tt
  select_routes-IsReported c local r (route ∷ routes) now same id m =
      let first = round r route now in
      let next = (report fl sorter mesh r route now).0 in
      All-append (IsReported c local) (report fl sorter mesh r route now).1
        (select_routes fl sorter mesh next routes now).1
        (subst (λ k. All (IsReported k local) (report fl sorter mesh r route now).1) same
          (subst (λ l. All (IsReported r.config l) (report fl sorter mesh r route now).1) id
            (first.entries (subst (λ k. Memᴰ route k.routes) (sym same) m.0))))
        (select_routes-IsReported c local next routes now (first.config ∙ same) (first.local ∙ id)
          m.1)

  -- Every entry of the report names a viable configured path of a configured route, and does not
  -- count it among its standby paths; a Node that is not public, or whose policy has expired,
  -- reports nothing.
  pub selected_paths-IsReported :
      (r : Router F) (now later : ℕ)
      → All (IsReported r.config r.local_node_id) (selected_paths fl sorter mesh r now later).1
        × ((r.config.local_public && policy_valid r.config (now / 1000000000) ≡ true)
            ⊎ ((selected_paths fl sorter mesh r now later).1 ≡ []))
  unfolding selected_paths
  selected_paths-IsReported r now later =
      let all =
        select_routes-IsReported r.config r.local_node_id r r.config.routes later refl refl
          (Memᴰ-All (λ route. Memᴰ route r.config.routes) r.config.routes (λ x m. m)) in
      elim (Bool-cases
        (not r.config.local_public || not (policy_valid r.config (now / 1000000000)))) [
          | inl e ↦ rw e (tt, inr refl)
          | inr e ↦ rw e (all, inl (ground arith))
        ]
