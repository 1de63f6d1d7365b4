-- ===== src/Routed/Router/Relay.antt =====
-- What `HandleMeshData` of internal/routed/router.go lets through, and what a frame is that it sends
-- on.
use bpc.Base.{
  ℕ, ◌+◌, ◌-◌, ◌/◌, ◌<◌, ◌==◌, if◌then◌else◌, true, [], length, get_elem?, get_or, get_elem?-get_or,
  Bytes, some, Result, ok, Result-cases, Bool-cases, inl, inr, ◌≡◌, refl, sym, ◌∙◌, ap, arith,
}
use bpc.Base.Sort.{Sorter}
use bpc.Routed.Frame.{Frame, marshal_frame, unmarshal_frame}
use bpc.Routed.Frame.Valid.{IsValid}
use bpc.Routed.Frame.RoundTrip.{IsValid-marshal, unmarshal-marshal}
use bpc.Routed.Config.{RoutePath, policy_valid}
use bpc.Routed.Transit.{validate_frame_for_node}
use bpc.Routed.Transit.Approval.{Approved, validate_frame_iff}
use bpc.Routed.Selection.{MeshView}
use bpc.Routed.Router.{
  Action, send, write, RouterError, Router, arrive, send_frame, handle_mesh_data,
}

-- The frame one hop further.
abbrev pub onward : Frame → Frame
onward f = record f { hop_index = f.hop_index + 1 }

-- What a sent frame is: it is on its way to the hop that it names, which is up, and the bytes are
-- read back as the frame.
pub record Sent {F : Type 0} (mesh : MeshView F) (f : Frame) (a : Action) : Type 0 where
  pub next : Bytes
  pub raw : Bytes
  pub action : a ≡ send next raw
  pub names : get_elem? f.hops f.hop_index ≡ some next
  pub up : mesh.can_send next ≡ true
  pub reads : unmarshal_frame raw ≡ ok f

pub send_frame-Sent :
    {F : Type 0} (mesh : MeshView F) (f : Frame) (a : Action)
    → send_frame mesh f ≡ ok a
    → Sent mesh f a
unfolding send_frame
send_frame-Sent mesh f a h = elim (Result-cases (marshal_frame f)) [
  | inr (x, e) ↦ absurd (ground arith)
  | inl (raw, e) ↦
      let inside : f.hop_index < length f.hops = ground arith in
      let here = get_elem?-get_or f.hops f.hop_index [] inside in
      record {
        next = get_or f.hops f.hop_index [];
        raw = raw;
        action = ground arith;
        names = here;
        up = ground arith;
        reads = unmarshal-marshal f raw e;
      }
]

pub Sent-send_frame :
    {F : Type 0} (mesh : MeshView F) (f : Frame)
    → IsValid f
    → mesh.can_send (get_or f.hops f.hop_index []) ≡ true
    → (a : Action) × (send_frame mesh f ≡ ok a) × Sent mesh f a
Sent-send_frame mesh f v up =
    let (raw, e) = IsValid-marshal f v in
    let a = send (get_or f.hops f.hop_index []) raw in
    let sends : send_frame mesh f ≡ ok a = unfold send_frame in ground (arith, v.receiver) in
    (a, sends, send_frame-Sent mesh f a sends)

-- What became of a frame that was let through: approved here under a policy that has not expired, it
-- was written at its last hop, or sent on to the next.
pub data Handled {F : Type 0} (sorter : Sorter) (mesh : MeshView F) (r : Router F)
    (peer raw : Bytes) (now : ℕ) (a : Action) : Type 0 where
  written :
      (f : Frame) (path : RoutePath F)
      → unmarshal_frame raw ≡ ok f
      → policy_valid r.config (now / 1000000000) ≡ true
      → Approved sorter r.config f r.local_node_id peer path
      → f.hop_index + 1 ≡ length f.hops
      → a ≡ write f.payload
      → Handled sorter mesh r peer raw now a
  passed_on :
      (f : Frame) (path : RoutePath F)
      → unmarshal_frame raw ≡ ok f
      → policy_valid r.config (now / 1000000000) ≡ true
      → Approved sorter r.config f r.local_node_id peer path
      → f.hop_index + 1 < length f.hops
      → Sent mesh (onward f) a
      → Handled sorter mesh r peer raw now a

arrive-write :
    {F : Type 0} (r : Router F) (f : Frame) (path : RoutePath F) (later : ℕ) (a : Action)
    → (arrive r f path later).1 ≡ ok a
    → a ≡ write f.payload
unfolding arrive
arrive-write r f path later a h = ground arith

pub handle_mesh_data-accepted :
    {F : Type 0} (sorter : Sorter) (mesh : MeshView F) (r : Router F) (peer raw : Bytes)
    (now later : ℕ) (f : Frame) (path : RoutePath F)
    → unmarshal_frame raw ≡ ok f
    → policy_valid r.config (now / 1000000000) ≡ true
    → validate_frame_for_node sorter f r.local_node_id peer r.config ≡ ok path
    → handle_mesh_data sorter mesh r peer raw now later ≡ (
        if f.hop_index == length f.hops - 1
        then arrive r f path later
        else (r, send_frame mesh (onward f)))
unfolding handle_mesh_data
handle_mesh_data-accepted sorter mesh r peer raw now later f path e k v =
    rw (e, handle_mesh_data) (rw k (rw (v, handle_mesh_data) refl))

-- Whatever a Node writes to its tunnel device or sends on for a peer came as an approved frame: the
-- packet is written only at the last hop, and the frame that is sent on is the one that came, one
-- hop further, to the hop that it names there.
pub handle_mesh_data-Handled :
    {F : Type 0} (sorter : Sorter) (mesh : MeshView F) (r : Router F) (peer raw : Bytes)
    (now later : ℕ) (a : Action)
    → (handle_mesh_data sorter mesh r peer raw now later).1 ≡ ok a
    → Handled sorter mesh r peer raw now a
unfolding handle_mesh_data
handle_mesh_data-Handled sorter mesh r peer raw now later a h =
    elim (Result-cases (unmarshal_frame raw)) [
      | inr (x, e) ↦ absurd (ground arith)
      | inl (f, e) ↦ elim (Bool-cases (policy_valid r.config (now / 1000000000))) [
        | inr k ↦ absurd (ground arith)
        | inl k ↦
            elim (Result-cases (validate_frame_for_node sorter f r.local_node_id peer r.config)) [
              | inr (x, v) ↦ absurd (ground arith)
              | inl (path, v) ↦
                  let approved =
                    (validate_frame_iff sorter f r.local_node_id peer r.config path).0 v in
                  let same =
                    handle_mesh_data-accepted sorter mesh r peer raw now later f path e k v in
                  let answer =
                    ap (λ (s : Router _ × Result RouterError Action). s.1) (sym same) ∙ h in
                  elim (Bool-cases (f.hop_index == length f.hops - 1)) [
                    | inl g ↦
                        written f path e k approved
                          (ground (arith, approved.valid.receiver, approved.valid.hop_count))
                          (arrive-write r f path later a (rw g at answer))
                    | inr g ↦
                        passed_on f path e k approved
                          (ground (arith, approved.valid.receiver, approved.valid.hop_count))
                          (send_frame-Sent mesh (onward f) a (rw g at answer))
                  ]
            ]
      ]
    ]
