-- ===== src/Nsg/Optimum/Visit.antt =====
-- Going through the edges of a node settles all its neighbours.
use near_mem_nsg.Base.{
  ℕ, ◌-◌, ◌≤◌, ◌<◌, ◌≡◌, refl, sym, ap, subst, ◌∙◌, inl, inr, Bool, true, false, some, List, [],
  ◌∷◌, ◌++◌, arith, Bool-cases, Option-cases, length, get_elem?, set, All, get_elem?-lt,
  get_elem?-set-eq,
}
use near_mem_nsg.Nsg.Pool.{Neighbor}
use near_mem_nsg.Nsg.Pool.Outcome.{Outcome}
use near_mem_nsg.Nsg.Pool.Sorted.{insert-IsSorted}
use near_mem_nsg.Nsg.Potential.{flag_stays}
use near_mem_nsg.Nsg.Counted.{insert_with_compare_count}
use near_mem_nsg.Nsg.Counted.Agreement.{forget, insert_counted}
use near_mem_nsg.Nsg.Graph.{Graph}
use near_mem_nsg.Nsg.GetData.{Expansion, insert_target, new_target, visit_edge, visit_edges}
use near_mem_nsg.Nsg.GetData.Total.{IsFit, visit_edge_lem}
use near_mem_nsg.Nsg.Optimum.{IsNoNearer}
use near_mem_nsg.Nsg.Optimum.Exploring.{
  AreFlagged, KeepsFlags, IsExploring, farther-IsExploring, inserted-IsExploring,
}

module _ {V D : Type 0} (lt : D → D → Bool) (asym : (a b : D) → lt a b ≡ true → lt b a ≡ false)
    (chain : (a b c : D) → lt a b ≡ false → lt b c ≡ false → lt a c ≡ false) (compare : V → V → D)
    (base : List V) (l : ℕ) (pos : 0 < l) (g : Graph) (vectors : g.nd ≤ length base) (query : V)
    (k n : ℕ) where
  abbrev Fit : Expansion D → Type 0
  Fit = IsFit lt asym compare base l g.nd pos vectors

  abbrev Explores : Expansion D → Type 0
  Explores s = IsExploring lt compare base l g query k n s.retset s.flags s.nk

  -- An insertion with the state that it leaves.
  insert_target-Outcome :
      (id : ℕ) (dist : D) (s t : Expansion D)
      → l < length s.retset
      → insert_target lt compare base l id dist s ≡ some t
      → (r : ℕ) × Outcome lt s.retset l
          (record { id = id; distance = dist; flag = true })
          r
          t.retset
        × (t.flags ≡ s.flags)
        × (t.nk ≤ s.nk)
        × (t.nk ≤ r)
  unfolding insert_target
  insert_target-Outcome id dist s t room q =
      let (r, pool, ends, o, same, order) = insert-IsSorted lt s.retset l nn room asym pos in
      elim (Option-cases (insert_with_compare_count lt s.retset l nn 0)) [
        | inl fault ↦ absurd (ground arith)
        | inr (c, h) ↦
            let at : some (r, pool) ≡ forget (some c) =
              sym ends ∙ sym (insert_counted lt s.retset l nn 0) ∙ ap forget h in
            let pooled : pool ≡ t.retset = ground arith in
            (
              r,
              subst (Outcome lt s.retset l nn r) pooled o,
              ground arith,
              ground arith,
              ground arith,
            )
      ]
    where
      nn : Neighbor D
      nn = record { id = id; distance = dist; flag = true }

  -- The node has its flag afterwards, and no flag is lost.
  abbrev Visited : ℕ → Expansion D → Expansion D → Type 0
  Visited id s t = Explores t × (get_elem? t.flags id ≡ some true) × KeepsFlags s.flags t.flags

  no_nearer :
      (id : ℕ) (s : Expansion D) (v : V) (last : Neighbor D)
      → get_elem? base id ≡ some v
      → get_elem? s.retset (l - 1) ≡ some last
      → lt (compare query v) last.distance ≡ false
      → IsNoNearer lt compare base l query id s.retset
  no_nearer id s v last h h' far v' last' q q' = ground (arith, far)

  new_target-Explores :
      (id : ℕ) (s t : Expansion D)
      → id < g.nd
      → Fit s
      → Explores s
      → new_target lt compare base l query id s ≡ some t
      → Visited id s t
  unfolding new_target
  new_target-Explores id s t own fit x q =
      let (v, h) = get_elem?-lt base id (omega arith) in
      let (last, h') = get_elem?-lt s.retset (l - 1) (omega (arith, fit.room)) in
      elim (Bool-cases (lt (compare query v) last.distance)) [
        | inr farther ↦
            let same : record seen { compare_latency = s.compare_latency ++ 1 ∷ [] } ≡ t =
              ground arith in
            subst (Visited id s) same (
              farther-IsExploring lt compare base l g query k n s.retset s.flags s.nk id x
                  (no_nearer id s v last h h' farther),
              get_elem?-set-eq s.flags id true (omega (arith, fit.nodes)),
              flag_stays s.flags id,
            )
        | inl nearer ↦
            let q' : insert_target lt compare base l id (compare query v) seen ≡ some t =
              ground arith in
            let (r, o, flags, low, low') =
              insert_target-Outcome id (compare query v) seen t fit.room q' in
            (
              rw flags (
                  inserted-IsExploring lt compare base l g query asym chain k n s.retset s.flags
                    s.nk t.nk r _ t.retset v fit.room fit.sorted x o h refl refl low low'),
              rw flags (get_elem?-set-eq s.flags id true (omega (arith, fit.nodes))),
              rw flags (flag_stays s.flags id),
            )
      ]
    where
      seen : Expansion D
      seen = record s { flags = set s.flags id true; target_ids = s.target_ids ++ id ∷ [] }

  visit_edge-Explores :
      (id : ℕ) (s t : Expansion D)
      → id < g.nd
      → Fit s
      → Explores s
      → visit_edge lt compare base l query id s ≡ some t
      → Visited id s t
  unfolding visit_edge
  visit_edge-Explores id s t own fit x q =
      let (b, h) = get_elem?-lt s.flags id (omega (arith, fit.nodes)) in
      elim (Bool-cases b) [
        | inl seen ↦
            let same : s ≡ t = ground arith in
            subst (Visited id s) same (x, h ∙ ap some seen, λ i e. e)
        | inr new ↦ new_target-Explores id s t own fit x (ground arith)
      ]

  -- The loop over the edges succeeds, and flags them all.
  pub visit_edges-Explores :
      (ids : List ℕ) (s : Expansion D)
      → All (λ id. id < g.nd) ids
      → Fit s
      → Explores s
      → (t : Expansion D) × (visit_edges lt compare base l query ids s ≡ some t)
        × Fit t
        × Explores t
        × AreFlagged t.flags ids
        × KeepsFlags s.flags t.flags
  unfolding visit_edges
  visit_edges-Explores [] s own fit x = (s, refl, fit, x, tt, λ i e. e)
  visit_edges-Explores (id ∷ ids) s own fit x =
      let (t, q, a) = visit_edge_lem lt asym compare base l g.nd pos vectors query id s own.0 fit in
      let (x', flagged, keeps) = visit_edge-Explores id s t own.0 fit x q in
      let (u, q', fit', x'', all, keeps') = visit_edges-Explores ids t own.1 a.fit x' in
      (u, rw q q', fit', x'', (keeps' id flagged, all), λ i e. keeps' i (keeps i e))
