-- ===== src/Routed/Router/Memory.antt =====
-- How long the table of internal/routed/router.go remembers the way back to a Device.
use bpc.Base.{
  ℕ, ◌+◌, ◌≤◌, false, [], ◌∷◌, Bytes, bytes_eq, bytes_eq_iff, some, Option-cases, Bool-cases, inl,
  inr, ◌≡◌, refl, ◌∙◌, arith,
}
use bpc.Base.Net.{format_addr4}
use bpc.Base.Dict.{Dict, lookup, delete, lookup-insert, lookup-delete}
use bpc.Routed.Config.{RoutePath}
use bpc.Routed.Router.{
  Router, ReversePath, reverse_path_ttl, expired, drop_expired, remember_reverse, forget_reverse,
  reverse_for,
}
use bpc.Routed.Router.Reverse.{known_path}

-- Until `moment` the table has this path for the Device.
pub record Remembers {F : Type 0} (local : Bytes) (device : ℕ) (path : RoutePath F) (moment : ℕ)
    (r : Router F) : Type 0 where
  pub here : r.local_node_id ≡ local
  pub entry : ReversePath F
  pub found : lookup (format_addr4 device) r.reverse_paths ≡ some entry
  pub same : entry.path ≡ path
  pub fresh : moment ≤ entry.last_seen + reverse_path_ttl

pub Remembers-known_path :
    {F : Type 0} (local : Bytes) (device : ℕ) (path : RoutePath F) (moment : ℕ) (r : Router F)
    → Remembers local device path moment r
    → known_path r device moment ≡ some path
unfolding known_path expired
Remembers-known_path local device path moment r m =
    rw (m.found, known_path) (ground (arith, m.same, m.fresh))

lookup-drop_expired :
    {F : Type 0} (k : Bytes) (now : ℕ) (e : ReversePath F) (m : Dict (ReversePath F))
    → lookup k m ≡ some e
    → expired e now ≡ false
    → lookup k (drop_expired now m) ≡ some e
unfolding lookup drop_expired
lookup-drop_expired k now e [] h f = absurd (ground arith)
lookup-drop_expired k now e ((j, v) ∷ m) h f = elim (Bool-cases (bytes_eq j k)) [
  | inl g ↦
      let same : v ≡ e = ground arith in
      let kept : expired v now ≡ false = rw same f in rw (kept, drop_expired) (rw (g, same) refl)
  | inr g ↦
      let rest = lookup-drop_expired k now e m (rw g at h) f in
      elim (Bool-cases (expired v now)) [
        | inl x ↦ rw (x, drop_expired) rest
        | inr x ↦ rw (x, drop_expired) (rw g rest)
      ]
]

not_expired :
    {F : Type 0} (e : ReversePath F) (moment now : ℕ)
    → moment ≤ e.last_seen + reverse_path_ttl
    → now ≤ moment
    → expired e now ≡ false
unfolding expired
not_expired e moment now fresh h = ground arith

module _ {F : Type 0} (local : Bytes) (device : ℕ) (path : RoutePath F) (moment : ℕ) where
  pub remember_reverse-Remembers :
      (r : Router F) (seen : ℕ)
      → r.local_node_id ≡ local
      → moment ≤ seen + reverse_path_ttl
      → Remembers local device path moment (remember_reverse r device path seen)
  unfolding remember_reverse
  remember_reverse-Remembers r seen id near =
      let key = format_addr4 device in
      let e : ReversePath F = record { path = path; last_seen = seen } in
      record {
        here = id;
        entry = e;
        found =
            lookup-insert key key e (drop_expired seen r.reverse_paths)
            ∙ rw ((bytes_eq_iff key key).1 refl) refl;
        same = refl;
        fresh = near;
      }

  -- The sweep and the entry of another Device leave this one.
  pub remember_other-Remembers :
      (r : Router F) (source now : ℕ) (p : RoutePath F)
      → bytes_eq (format_addr4 source) (format_addr4 device) ≡ false
      → now ≤ moment
      → Remembers local device path moment r
      → Remembers local device path moment (remember_reverse r source p now)
  unfolding remember_reverse
  remember_other-Remembers r source now p other before m =
      let e : ReversePath F = record { path = p; last_seen = now } in
      let kept =
        lookup-drop_expired (format_addr4 device) now m.entry r.reverse_paths m.found
          (not_expired m.entry moment now m.fresh before) in
      record {
        here = m.here;
        entry = m.entry;
        found =
            lookup-insert (format_addr4 source) (format_addr4 device) e
              (drop_expired now r.reverse_paths)
            ∙ rw other kept;
        same = m.same;
        fresh = m.fresh;
      }

  -- To look a Device up refreshes its entry, or forgets one that has expired.
  pub reverse_for-Remembers :
      (r : Router F) (d now : ℕ)
      → now ≤ moment
      → moment ≤ now + reverse_path_ttl
      → Remembers local device path moment r
      → Remembers local device path moment (reverse_for r d now).0
  unfolding reverse_for forget_reverse
  reverse_for-Remembers r d now before near m =
      elim (Bool-cases (bytes_eq (format_addr4 d) (format_addr4 device))) [
        | inl g ↦
            let key = (bytes_eq_iff (format_addr4 d) (format_addr4 device)).0 g in
            let fresh = not_expired m.entry moment now m.fresh before in
            let e : ReversePath F = record { path = m.entry.path; last_seen = now } in
            let here : lookup (format_addr4 d) r.reverse_paths ≡ some m.entry = rw key m.found in
            rw (here, reverse_for)
              (rw fresh record {
                here = m.here;
                entry = e;
                found =
                    lookup-insert (format_addr4 d) (format_addr4 device) e r.reverse_paths
                    ∙ rw g refl;
                same = m.same;
                fresh = near;
              })
        | inr g ↦
            let kept : lookup (format_addr4 device) (delete (format_addr4 d) r.reverse_paths)
                ≡ some m.entry =
              lookup-delete (format_addr4 d) (format_addr4 device) r.reverse_paths ∙ rw g m.found in
            let forgot : Remembers local device path moment (forget_reverse r d) = record {
              here = m.here;
              entry = m.entry;
              found = kept;
              same = m.same;
              fresh = m.fresh;
            } in
            elim (Option-cases (lookup (format_addr4 d) r.reverse_paths)) [
              | inl x ↦ rw (x, reverse_for) forgot
              | inr (e, x) ↦ elim (Bool-cases (expired e now)) [
                | inl y ↦ rw (x, reverse_for) (rw y forgot)
                | inr y ↦
                    let e' : ReversePath F = record { path = e.path; last_seen = now } in
                    rw (x, reverse_for)
                      (rw y record {
                        here = m.here;
                        entry = m.entry;
                        found =
                            lookup-insert (format_addr4 d) (format_addr4 device) e' r.reverse_paths
                            ∙ rw g m.found;
                        same = m.same;
                        fresh = m.fresh;
                      })
              ]
            ]
      ]
