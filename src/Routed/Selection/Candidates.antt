-- ===== src/Routed/Selection/Candidates.antt =====
-- The candidates of `choosePath` in internal/routed/router.go, and their order.
use mathlib.Core.List.{Memᴰ}
use mathlib.Core.Path.{subst}
use bpc.Base.{
  List, [], ◌∷◌, Bytes, bytes_eq, bytes_lt, bytes_eq_iff, none, some, ◌≡◌, ◌≢◌, refl, sym, arith,
  Option-cases, Bool-cases, inl, inr, bytes_lt_irreflexive, bytes_lt_transitive,
  bytes_lt_comparable,
}
use bpc.Base.Float.{Float}
use bpc.Base.Sort.{StrictWeak, lexicographic-StrictWeak}
use bpc.Routed.Config.{RoutePath}
use bpc.Routed.Selection.{MeshView, Scored, viable_path, candidates_of, better, find_current}

bytes_lt-StrictWeak : StrictWeak bytes_lt
bytes_lt-StrictWeak = record {
  irreflexive = bytes_lt_irreflexive;
  transitive = bytes_lt_transitive;
  comparable = bytes_lt_comparable;
}

module _ (fl : Float) where
  open fl use {F, sub, lt, eq}

  pub better-StrictWeak : StrictWeak (better fl)
  better-StrictWeak =
      lexicographic-StrictWeak (λ (s : Scored fl). s.score) lt eq
        (λ (a b : Scored fl). bytes_lt a.path.id b.path.id) fl.lt-StrictWeak fl.eq_iff
        (record {
          irreflexive = λ a. bytes_lt_irreflexive a.path.id;
          transitive = λ a b c. bytes_lt_transitive a.path.id b.path.id c.path.id;
          comparable = λ a b c. bytes_lt_comparable a.path.id b.path.id c.path.id;
        })

  -- A candidate is a path that was looked at and is viable, with its score.
  pub record IsCandidate (mesh : MeshView F) (local : Bytes) (paths : List (RoutePath F))
      (s : Scored fl) : Type 0 where
    pub listed : Memᴰ s.path paths
    pub viable : viable_path fl mesh local s.path ≡ some s.score

  candidates_cons_none :
      (mesh : MeshView F) (local : Bytes) (p : RoutePath F) (ps : List (RoutePath F))
      → viable_path fl mesh local p ≡ none
      → candidates_of fl mesh local (p ∷ ps) ≡ candidates_of fl mesh local ps
  unfolding candidates_of
  candidates_cons_none mesh local p ps e = rw (e, candidates_of)

  candidates_cons_some :
      (mesh : MeshView F) (local : Bytes) (p : RoutePath F) (ps : List (RoutePath F)) (score : F)
      → viable_path fl mesh local p ≡ some score
      → candidates_of fl mesh local (p ∷ ps)
        ≡ record { path = p; score = score } ∷ candidates_of fl mesh local ps
  unfolding candidates_of
  candidates_cons_some mesh local p ps score e = rw (e, candidates_of)

  IsCandidate-cons :
      (mesh : MeshView F) (local : Bytes) (p : RoutePath F) (ps : List (RoutePath F))
      (s : Scored fl)
      → IsCandidate mesh local ps s
      → IsCandidate mesh local (p ∷ ps) s
  IsCandidate-cons mesh local p ps s c = record { listed = Memᴰ.tail c.listed; viable = c.viable }

  Mem-IsCandidate :
      (mesh : MeshView F) (local : Bytes) (p : RoutePath F) (ps : List (RoutePath F)) (score : F)
      (s : Scored fl)
      → viable_path fl mesh local p ≡ some score
      → (Memᴰ s (candidates_of fl mesh local ps) → IsCandidate mesh local ps s)
      → Memᴰ s (record { path = p; score = score } ∷ candidates_of fl mesh local ps)
      → IsCandidate mesh local (p ∷ ps) s
  Mem-IsCandidate mesh local p ps score s e later (Memᴰ.head f) =
      subst (IsCandidate mesh local (p ∷ ps)) (sym f)
        (record { listed = Memᴰ.head refl; viable = e })
  Mem-IsCandidate mesh local p ps score s e later (Memᴰ.tail m) =
      IsCandidate-cons mesh local p ps s (later m)

  pub candidates-IsCandidate :
      (mesh : MeshView F) (local : Bytes) (paths : List (RoutePath F)) (s : Scored fl)
      → Memᴰ s (candidates_of fl mesh local paths)
      → IsCandidate mesh local paths s
  candidates-IsCandidate mesh local [] s m = unfold candidates_of in elim m [ ]
  candidates-IsCandidate mesh local (p ∷ ps) s m =
      elim (Option-cases (viable_path fl mesh local p)) [
        | inl e ↦ IsCandidate-cons mesh local p ps s (
            candidates-IsCandidate mesh local ps s
              (subst (Memᴰ s) (candidates_cons_none mesh local p ps e) m))
        | inr (score, e) ↦
            Mem-IsCandidate mesh local p ps score s e (candidates-IsCandidate mesh local ps s)
              (subst (Memᴰ s) (candidates_cons_some mesh local p ps score e) m)
      ]

  -- A viable path leaves the head of the list, or is the head.
  Viable-Mem :
      (mesh : MeshView F) (local : Bytes) (q : RoutePath F) (ps : List (RoutePath F))
      (p : RoutePath F) (score : F)
      → (Memᴰ p ps → Memᴰ (record { path = p; score = score }) (candidates_of fl mesh local ps))
      → Memᴰ p (q ∷ ps)
      → viable_path fl mesh local p ≡ some score
      → Memᴰ (record { path = p; score = score }) (candidates_of fl mesh local (q ∷ ps))
  Viable-Mem mesh local q ps p score later (Memᴰ.head f) v =
      let here : viable_path fl mesh local q ≡ some score =
        subst (λ r. viable_path fl mesh local r ≡ some score) f v in
      subst (Memᴰ (record { path = p; score = score }))
        (sym (candidates_cons_some mesh local q ps score here))
        (Memᴰ.head (λ i. record { path = f i; score = score }))
  Viable-Mem mesh local q ps p score later (Memᴰ.tail m) v =
      elim (Option-cases (viable_path fl mesh local q)) [
        | inl e ↦
            subst (Memᴰ (record { path = p; score = score }))
              (sym (candidates_cons_none mesh local q ps e)) (later m)
        | inr (t, e) ↦
            subst (Memᴰ (record { path = p; score = score }))
              (sym (candidates_cons_some mesh local q ps t e)) (Memᴰ.tail (later m))
      ]

  pub IsCandidate-candidates :
      (mesh : MeshView F) (local : Bytes) (paths : List (RoutePath F)) (p : RoutePath F) (score : F)
      → Memᴰ p paths
      → viable_path fl mesh local p ≡ some score
      → Memᴰ (record { path = p; score = score }) (candidates_of fl mesh local paths)
  IsCandidate-candidates mesh local [] p score m v = elim m [ ]
  IsCandidate-candidates mesh local (q ∷ ps) p score m v =
      Viable-Mem mesh local q ps p score (λ n. IsCandidate-candidates mesh local ps p score n v) m v

  pub find_current-Memᴰ :
      (id : Bytes) (ss : List (Scored fl)) (s : Scored fl)
      → find_current fl id ss ≡ some s
      → Memᴰ s ss × (s.path.id ≡ id)
  unfolding find_current
  find_current-Memᴰ id [] s h = cc
  find_current-Memᴰ id (t ∷ ss) s h = elim (Bool-cases (bytes_eq t.path.id id)) [
    | inl e ↦
        let same : t ≡ s = ground arith in
        (Memᴰ.head (sym same), cc (same, (bytes_eq_iff t.path.id id).0 e))
    | inr e ↦ let (m, i) = find_current-Memᴰ id ss s (ground arith) in (Memᴰ.tail m, i)
  ]

  pub find_current-none :
      (id : Bytes) (ss : List (Scored fl)) (s : Scored fl)
      → find_current fl id ss ≡ none
      → Memᴰ s ss
      → s.path.id ≢ id
  unfolding find_current
  find_current-none id [] s h m = elim m [ ]
  find_current-none id (t ∷ ss) s h (Memᴰ.head f) =
      λ e. ground (arith, bytes_eq_iff t.path.id id, f)
  find_current-none id (t ∷ ss) s h (Memᴰ.tail m) = find_current-none id ss s (ground arith) m
