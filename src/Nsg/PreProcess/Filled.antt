-- ===== src/Nsg/PreProcess/Filled.antt =====
-- `PreProcess` of deps/nsg/src/index_nsg.cpp comes to its end once `rand()` has given every node.
use near_mem_nsg.Base.{
  ℕ, suc, ◌%◌, ◌≤◌, ◌<◌, ◌≡◌, refl, sym, ap, subst, ◌∙◌, ◌⊎◌, inl, inr, Bool, true, false, some,
  List, [], ◌∷◌, arith, ltb, ltb→lt, Bool-cases, length, get_elem?, replicate, get_elem?-lt,
  get_elem?-set-eq,
}
use near_mem_nsg.Nsg.Graph.{Graph}
use near_mem_nsg.Nsg.Potential.{unseen, flag_stays}
use near_mem_nsg.Nsg.GetData.Answers.{IsGraph}
use near_mem_nsg.Nsg.PreProcess.{Gather, gather_new, gather_random, pre_process}
use near_mem_nsg.Nsg.PreProcess.Gathered.{IsDistinct, IsGathered, gather_lem}
use near_mem_nsg.Nsg.PreProcess.Prepared.{IsPrepared, gather_edges_of_entry, IsGathered-IsPrepared}

-- A value of `rand()` whose remainder is this node.
abbrev pub IsDrawn : ℕ → ℕ → List ℕ → Type 0
IsDrawn nd id [] = ⊥
IsDrawn nd id (r ∷ rs) = (id ≡ r % nd) ⊎ IsDrawn nd id rs

unseen_none :
    (flags : List Bool)
    → ((id : ℕ) → id < length flags → get_elem? flags id ≡ some true)
    → unseen flags ≡ 0
unseen_none [] h = refl
unseen_none (true ∷ bs) h = unseen_none bs (λ id w. h (suc id) (omega arith))
unseen_none (false ∷ bs) h = absurd (ground (arith, h 0 (omega arith)))

module _ (l nd : ℕ) where
  -- The id has its flag afterwards, and so has every id that had it.
  gather_new_flags :
      (id : ℕ) (s : Gather)
      → s.tmp_l < l
      → id < nd
      → IsGathered l nd s
      → (t : Gather) × (gather_new id s ≡ some t)
        × IsGathered l nd t
        × (get_elem? t.flags id ≡ some true)
        × ((i : ℕ) → get_elem? s.flags i ≡ some true → get_elem? t.flags i ≡ some true)
  unfolding gather_new
  gather_new_flags id s more own ok =
      let (b, g) = get_elem?-lt s.flags id (omega (arith, ok.nodes)) in
      elim (Bool-cases b) [
        | inl seen ↦ (s, ground arith, ok, ground arith, λ i e. e)
        | inr fresh ↦
            let (t, q, ok', flags, n) = gather_lem l nd id s more (g ∙ ap some fresh) ok in
            (
              t,
              ground (arith, q),
              ok',
              rw flags (get_elem?-set-eq s.flags id true (omega (arith, ok.nodes))),
              λ i e. rw flags (flag_stays s.flags id i e),
            )
      ]

  gather_random_fills :
      (draws : List ℕ) (s : Gather)
      → 0 < nd
      → IsGathered l nd s
      → ((id : ℕ) → id < nd → (get_elem? s.flags id ≡ some true) ⊎ IsDrawn nd id draws)
      → (t : Gather) × (gather_random l nd draws s ≡ some t)
        × IsGathered l nd t
        × ((t.tmp_l ≡ l) ⊎ (unseen t.flags ≡ 0))
  unfolding gather_random
  gather_random_fills [] s pos ok h =
      (s, refl, ok, inr (unseen_none s.flags (λ id w. drawn id (h id (omega (arith, ok.nodes))))))
    where
      drawn : (id : ℕ) → (get_elem? s.flags id ≡ some true) ⊎ ⊥ → get_elem? s.flags id ≡ some true
      drawn id (inl e) = e
      drawn id (inr e) = absurd e
  gather_random_fills (r ∷ rs) s pos ok h = elim (Bool-cases (ltb s.tmp_l l)) [
    | inr full ↦ (s, rw full refl, ok, inl (ground (arith, ok.room)))
    | inl more ↦
        let (t, q, ok', own, kept) =
          gather_new_flags (r % nd) s (ltb→lt s.tmp_l l more) (omega arith) ok in
        let (u, q', ok'', ends) =
          gather_random_fills rs t pos ok' (λ id w. later t own kept id (h id w)) in
        (u, ground (arith, q, q'), ok'', ends)
  ]
    where
      later :
          (t : Gather)
          → get_elem? t.flags (r % nd) ≡ some true
          → ((i : ℕ) → get_elem? s.flags i ≡ some true → get_elem? t.flags i ≡ some true)
          → (id : ℕ) → (get_elem? s.flags id ≡ some true) ⊎ IsDrawn nd id (r ∷ rs)
          → (get_elem? t.flags id ≡ some true) ⊎ IsDrawn nd id rs
      later t own kept id (inl e) = inl (kept id e)
      later t own kept id (inr (inl e)) =
          inl (subst (λ i. get_elem? t.flags i ≡ some true) (sym e) own)
      later t own kept id (inr (inr d)) = inr d

-- On a well-formed graph of at least `L` nodes whose entry point has distinct edges, fewer than `L`,
-- `PreProcess` returns at the latest when `rand()` has given every node, and its initial ids are
-- `L` different nodes, each with its flag set.
pub pre_process_fills :
    (l : ℕ) (g : Graph) (draws init_ids entry : List ℕ)
    → IsGraph g
    → get_elem? g.final_graph g.ep ≡ some entry
    → IsDistinct entry
    → length entry < l
    → length init_ids ≡ l
    → l ≤ g.nd
    → ((id : ℕ) → id < g.nd → IsDrawn g.nd id draws)
    → (s : Gather) × (pre_process l g draws init_ids (replicate g.nd false) ≡ some s)
      × (s.tmp_l ≡ l)
      × IsPrepared l g.nd s
pre_process_fills l g draws init_ids entry graph h distinct few room enough drawn =
    let (s, ok, pos, run) = gather_edges_of_entry l g init_ids entry graph h distinct few room in
    let (t, q, ok', ends) = gather_random_fills l g.nd draws s pos ok (λ id w. inr (drawn id w)) in
    let full : t.tmp_l ≡ l = filled t ok' ends in
    (t, run draws ∙ q, full, IsGathered-IsPrepared l g.nd t ok' full)
  where
    filled : (t : Gather) → IsGathered l g.nd t → (t.tmp_l ≡ l) ⊎ (unseen t.flags ≡ 0) → t.tmp_l ≡ l
    filled t ok (inl e) = e
    filled t ok (inr e) = omega (arith, ok.room, ok.counted)
