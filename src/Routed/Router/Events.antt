-- ===== src/Routed/Router/Events.antt =====
-- The way back to a Device, behind each handler of internal/routed/router.go and any number of them.
use bpc.Base.{
  ℕ, ◌+◌, ◌/◌, ◌≤◌, false, ◌&&◌, List, [], ◌∷◌, Bytes, bytes_eq, All, length, ◌==◌, ◌-◌, ok,
  Option-cases, Result-cases, Bool-cases, inl, inr, ◌≡◌, refl, ◌∙◌, arith,
}
use bpc.Base.Float.{Float}
use bpc.Base.Net.{format_addr4}
use bpc.Base.Sort.{Sorter}
use bpc.Routed.Frame.{Frame, unmarshal_frame}
use bpc.Routed.Config.{
  RoutePath, RoutingConfig, policy_valid, validate_config, route_for, source_paths,
}
use bpc.Routed.Transit.{parse_ipv4_endpoints, prefix_holds, validate_frame_for_node}
use bpc.Routed.Selection.{MeshView}
use bpc.Routed.Router.{
  Router, reverse_path_ttl, reverse_for, reply, choose_for, originate, handle_tun_packet, arrive,
  handle_mesh_data, update_config,
}
use bpc.Routed.Router.Memory.{Remembers, remember_other-Remembers, reverse_for-Remembers}

-- A frame whose packet is not from the Device.
unfoldable pub Elsewhere : ℕ → Bytes → Type 0
Elsewhere device raw =
    (f : Frame) (source destination : ℕ)
    → unmarshal_frame raw ≡ ok f
    → parse_ipv4_endpoints f.payload ≡ ok (source, destination)
    → bytes_eq (format_addr4 source) (format_addr4 device) ≡ false

module _ {F : Type 0} (local : Bytes) (device : ℕ) (path : RoutePath F) (moment : ℕ) where
  -- A change of the selections, or of the configuration, leaves the table.
  same_table :
      (r r' : Router F)
      → (r'.reverse_paths ≡ r.reverse_paths) × (r'.local_node_id ≡ r.local_node_id)
      → Remembers local device path moment r
      → Remembers local device path moment r'
  same_table r r' e m = record {
    here = e.1 ∙ m.here;
    entry = m.entry;
    found = rw e.0 m.found;
    same = m.same;
    fresh = m.fresh;
  }

  arrive-Remembers :
      (r : Router F) (raw : Bytes) (f : Frame) (p : RoutePath F) (later : ℕ)
      → unmarshal_frame raw ≡ ok f
      → Elsewhere device raw
      → later ≤ moment
      → Remembers local device path moment r
      → Remembers local device path moment (arrive r f p later).0
  unfolding arrive Elsewhere
  arrive-Remembers r raw f p later e other before m = elim (Bool-cases f.is_return) [
    | inl g ↦ rw (g, arrive) m
    | inr g ↦ elim (Result-cases (parse_ipv4_endpoints f.payload)) [
      | inr (x, h) ↦ rw (g, arrive) (rw h m)
      | inl ((s, d), h) ↦
          rw (g, arrive)
            (rw h (
              remember_other-Remembers local device path moment r s later p (other f s d e h) before
                m))
    ]
  ]

  pub handle_mesh_data-Remembers :
      (sorter : Sorter) (mesh : MeshView F) (r : Router F) (peer raw : Bytes) (now later : ℕ)
      → Elsewhere device raw
      → later ≤ moment
      → Remembers local device path moment r
      → Remembers local device path moment (handle_mesh_data sorter mesh r peer raw now later).0
  unfolding handle_mesh_data
  handle_mesh_data-Remembers sorter mesh r peer raw now later other before m =
      elim (Result-cases (unmarshal_frame raw)) [
        | inr (x, e) ↦ rw (e, handle_mesh_data) m
        | inl (f, e) ↦ elim (Bool-cases (policy_valid r.config (now / 1000000000))) [
          | inr k ↦ rw (e, handle_mesh_data) (rw k m)
          | inl k ↦
              elim (Result-cases (validate_frame_for_node sorter f r.local_node_id peer r.config)) [
                | inr (x, v) ↦ rw (e, handle_mesh_data) (rw k (rw (v, handle_mesh_data) m))
                | inl (p, v) ↦ elim (Bool-cases (f.hop_index == length f.hops - 1)) [
                  | inl g ↦
                      rw (e, handle_mesh_data)
                        (rw k (
                          rw (v, handle_mesh_data)
                            (rw g (arrive-Remembers r raw f p later e other before m))))
                  | inr g ↦ rw (e, handle_mesh_data) (rw k (rw (v, handle_mesh_data) (rw g m)))
                ]
              ]
        ]
      ]

update_config-Remembers :
    {F : Type 0} (local : Bytes) (device : ℕ) (path : RoutePath F) (moment : ℕ) (r : Router F)
    (c : RoutingConfig F)
    → Remembers local device path moment r
    → Remembers local device path moment (update_config r c).0
unfolding update_config
update_config-Remembers local device path moment r c m =
    elim (Result-cases (validate_config c r.local_node_id)) [
      | inr (x, e) ↦ rw (e, update_config) m
      | inl (u, e) ↦
          rw (e, update_config)
            record {
              here = m.here;
              entry = m.entry;
              found = m.found;
              same = m.same;
              fresh = m.fresh;
            }
    ]

module _ (fl : Float) (sorter : Sorter) (local : Bytes) (device : ℕ) (path : RoutePath (fl.F))
    (moment : ℕ) where
  originate-table :
      (mesh : MeshView (fl.F)) (r : Router (fl.F)) (packet : Bytes) (d now : ℕ)
      → ((originate fl sorter mesh r packet d now).0.reverse_paths ≡ r.reverse_paths)
        × ((originate fl sorter mesh r packet d now).0.local_node_id ≡ r.local_node_id)
  unfolding originate choose_for
  originate-table mesh r packet d now = elim (Option-cases (route_for sorter r.config d)) [
    | inl e ↦ rw (e, originate) (refl, refl)
    | inr (route, e) ↦
        elim (Option-cases
          (choose_for fl sorter mesh r route (source_paths fl sorter r.config r.local_node_id route)
            now).1) [
              | inl f ↦ rw (e, originate) (rw (f, originate) (refl, refl))
              | inr (p, f) ↦ rw (e, originate) (rw (f, originate) (refl, refl))
            ]
  ]

  reply-reverse_for :
      (mesh : MeshView (fl.F)) (r : Router (fl.F)) (packet : Bytes) (d now : ℕ)
      → (reply mesh r packet d now).0 ≡ (reverse_for r d now).0
  unfolding reply
  reply-reverse_for mesh r packet d now = elim (Option-cases (reverse_for r d now).1) [
    | inl e ↦ rw (e, reply) refl
    | inr (p, e) ↦ rw (e, reply) refl
  ]

  pub handle_tun_packet-Remembers :
      (mesh : MeshView (fl.F)) (r : Router (fl.F)) (packet : Bytes) (now : ℕ)
      → now ≤ moment
      → moment ≤ now + reverse_path_ttl
      → Remembers local device path moment r
      → Remembers local device path moment (handle_tun_packet fl sorter mesh r packet now).0
  unfolding handle_tun_packet
  handle_tun_packet-Remembers mesh r packet now before near m =
      elim (Result-cases (parse_ipv4_endpoints packet)) [
        | inr (x, e) ↦ rw (e, handle_tun_packet) m
        | inl ((s, d), e) ↦ elim (Bool-cases (policy_valid r.config (now / 1000000000))) [
          | inr k ↦ rw (e, handle_tun_packet) (rw k m)
          | inl k ↦
              elim (Bool-cases
                (r.config.local_site_router && prefix_holds r.config.overlay_subnet d)) [
                  | inl g ↦
                      rw (e, handle_tun_packet)
                        (rw (k, g)
                          (rw (reply-reverse_for mesh r packet d now)
                            (reverse_for-Remembers local device path moment r d now before near m)))
                  | inr g ↦
                      rw (e, handle_tun_packet)
                        (rw (k, g)
                          (same_table local device path moment r
                            (originate fl sorter mesh r packet d now).0
                            (originate-table mesh r packet d now) m))
                ]
        ]
      ]

-- What a router handles, with what its clock answers: a frame, a packet of its tunnel device, a new
-- configuration.
pub data Event (F : Type 0) : Type 0 where
  came : MeshView F → Bytes → Bytes → ℕ → ℕ → Event F
  tunnelled : MeshView F → Bytes → ℕ → Event F
  configured : RoutingConfig F → Event F

module _ (fl : Float) (sorter : Sorter) where
  unfoldable pub step : Router (fl.F) → Event (fl.F) → Router (fl.F)
  step r (came mesh peer raw now later) = (handle_mesh_data sorter mesh r peer raw now later).0
  step r (tunnelled mesh packet now) = (handle_tun_packet fl sorter mesh r packet now).0
  step r (configured c) = (update_config r c).0

  unfoldable pub handle_all : Router (fl.F) → List (Event (fl.F)) → Router (fl.F)
  handle_all r [] = r
  handle_all r (e ∷ es) = handle_all (step r e) es

  -- The clock stands between the two moments, and no frame brings a packet from the Device.
  unfoldable pub Between : ℕ → ℕ → ℕ → Event (fl.F) → Type 0
  Between device start moment (came mesh peer raw now later) =
      (later ≤ moment) × Elsewhere device raw
  Between device start moment (tunnelled mesh packet now) = (start ≤ now) × (now ≤ moment)
  Between device start moment (configured c) = Unit

  step-Remembers :
      (local : Bytes) (device start moment : ℕ) (path : RoutePath (fl.F)) (r : Router (fl.F))
      (e : Event (fl.F))
      → moment ≤ start + reverse_path_ttl
      → Between device start moment e
      → Remembers local device path moment r
      → Remembers local device path moment (step r e)
  unfolding step Between
  step-Remembers local device start moment path r (came mesh peer raw now later) near b m =
      handle_mesh_data-Remembers local device path moment sorter mesh r peer raw now later b.1 b.0 m
  step-Remembers local device start moment path r (tunnelled mesh packet now) near b m =
      handle_tun_packet-Remembers fl sorter local device path moment mesh r packet now b.1
        (omega (arith, near, b.0)) m
  step-Remembers local device start moment path r (configured c) near b m =
      update_config-Remembers local device path moment r c m

  pub handle_all-Remembers :
      (local : Bytes) (device start moment : ℕ) (path : RoutePath (fl.F)) (r : Router (fl.F))
      (es : List (Event (fl.F)))
      → moment ≤ start + reverse_path_ttl
      → All (Between device start moment) es
      → Remembers local device path moment r
      → Remembers local device path moment (handle_all r es)
  unfolding handle_all
  handle_all-Remembers local device start moment path r [] near b m = m
  handle_all-Remembers local device start moment path r (e ∷ es) near b m =
      handle_all-Remembers local device start moment path (step r e) es near b.1
        (step-Remembers local device start moment path r e near b.0 m)
