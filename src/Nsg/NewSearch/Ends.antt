-- ===== src/Nsg/NewSearch/Ends.antt =====
-- The loop of `NewSearch` comes to an end, with or without its early termination.
use near_mem_nsg.Base.{
  ℕ, zero, suc, ◌-◌, ◌≤◌, ◌<◌, ◌≡◌, sym, ap, subst, ◌∙◌, inl, inr, Bool, true, false, Option, some,
  List, [], ◌∷◌, ◌++◌, arith, ltb, ltb→lt, Bool-cases, Option-cases, length, get_elem?, set,
}
use near_mem_nsg.Nsg.Pool.{Neighbor, insert_into_pool}
use near_mem_nsg.Nsg.Counted.{insert_with_compare_count}
use near_mem_nsg.Nsg.Counted.Agreement.{forget, insert_counted}
use near_mem_nsg.Nsg.Graph.{Graph}
use near_mem_nsg.Nsg.GetData.{
  Expansion, Answer, next_position, insert_target, new_target, visit_edge, visit_edges, expand,
  new_search_get_data,
}
use near_mem_nsg.Nsg.GetData.Answers.{IsGraph, get_data-IsGood}
use near_mem_nsg.Nsg.NewSearch.{
  Progress, early_termination, insert_neighbor, new_neighbor, search_edge, search_edges,
  search_node, search_round, search_loop, start_search,
}
use near_mem_nsg.Nsg.Steps.Ends.{FitPool, steps_left}

module _ {V D : Type 0} (lt : D → D → Bool) (compare : V → V → D) (base : List V) (l : ℕ) where
  -- A step as a round of `NewSearch`.
  abbrev pub view : ℕ → Bool → Expansion D → Progress D
  view counter flag s = record {
    retset = s.retset;
    flags = s.flags;
    nk = s.nk;
    early_term_counter = counter;
    early_term_flag = flag;
  }

  -- The same state, whatever the early termination has counted.
  abbrev Mirrors : Option (Progress D) → Expansion D → Type 0
  Mirrors o t = (counter : ℕ) × (flag : Bool) × (o ≡ some (view counter flag t))

  module _ (query : V) where
    insert-Mirrors :
        (id : ℕ) (dist : D) (counter : ℕ) (flag : Bool) (s t : Expansion D)
        → insert_target lt compare base l id dist s ≡ some t
        → Mirrors (insert_neighbor lt compare base l id dist (view counter flag s)) t
    unfolding insert_target insert_neighbor
    insert-Mirrors id dist counter flag s t q =
        elim (Option-cases (insert_with_compare_count lt s.retset l nn 0)) [
          | inl fault ↦ absurd (ground arith)
          | inr (c, g) ↦
              let same : insert_into_pool lt s.retset l nn ≡ some (c.position, c.pool) =
                sym (insert_counted lt s.retset l nn 0) ∙ ap forget g in
              let p = early_termination c.position (view counter flag s) in
              (p.early_term_counter, p.early_term_flag, ground (arith, same))
        ]
      where
        nn : Neighbor D
        nn = record { id = id; distance = dist; flag = true }

    new-Mirrors :
        (id counter : ℕ) (flag : Bool) (s t : Expansion D)
        → new_target lt compare base l query id s ≡ some t
        → Mirrors (new_neighbor lt compare base l query id (view counter flag s)) t
    unfolding new_target new_neighbor
    new-Mirrors id counter flag s t q = elim (Option-cases (get_elem? base id)) [
      | inl fault ↦ absurd (ground arith)
      | inr (v, g) ↦ elim (Option-cases (get_elem? s.retset (l - 1))) [
        | inl fault ↦ absurd (ground arith)
        | inr (e, g') ↦ elim (Bool-cases (lt (compare query v) e.distance)) [
          | inl nearer ↦
              rw (g, g', nearer)
                (insert-Mirrors id (compare query v) counter flag seen t (ground arith))
          | inr farther ↦ (counter, flag, ground arith)
        ]
      ]
    ]
      where
        seen : Expansion D
        seen = record s { flags = set s.flags id true; target_ids = s.target_ids ++ id ∷ [] }

    edge-Mirrors :
        (id counter : ℕ) (flag : Bool) (s t : Expansion D)
        → visit_edge lt compare base l query id s ≡ some t
        → Mirrors (search_edge lt compare base l query id (view counter flag s)) t
    unfolding visit_edge search_edge
    edge-Mirrors id counter flag s t q = elim (Option-cases (get_elem? s.flags id)) [
      | inl fault ↦ absurd (ground arith)
      | inr (b, g) ↦ elim (Bool-cases b) [
        | inl seen ↦ (counter, flag, ground arith)
        | inr new ↦ rw (g, new) (new-Mirrors id counter flag s t (ground arith))
      ]
    ]

    edges-Mirrors :
        (ids : List ℕ) (counter : ℕ) (flag : Bool) (s t : Expansion D)
        → visit_edges lt compare base l query ids s ≡ some t
        → Mirrors (search_edges lt compare base l query ids (view counter flag s)) t
    unfolding visit_edges search_edges
    edges-Mirrors [] counter flag s t q = (counter, flag, ground arith)
    edges-Mirrors (id ∷ ids) counter flag s t q =
        elim (Option-cases (visit_edge lt compare base l query id s)) [
          | inl fault ↦ absurd (ground arith)
          | inr (u, g) ↦
              let (counter', flag', q') = edge-Mirrors id counter flag s u g in
              let (counter'', flag'', q'') = edges-Mirrors ids counter' flag' u t (ground arith) in
              (counter'', flag'', ground (arith, q', q''))
        ]

    node-Mirrors :
        (g : Graph) (k : ℕ) (e : Neighbor D) (counter : ℕ) (flag : Bool) (s t : Expansion D)
        → expand lt compare base l g query k e s ≡ some t
        → Mirrors (search_node lt compare base l g query k e (view counter flag s)) t
    unfolding expand search_node
    node-Mirrors g k e counter flag s t q = elim (Option-cases (get_elem? g.final_graph e.id)) [
      | inl fault ↦ absurd (ground arith)
      | inr (edges, h) ↦ rw h (edges-Mirrors edges counter flag cleared t (ground arith))
    ]
      where
        cleared : Expansion D
        cleared = record s { retset = set s.retset k (record e { flag = false }) }

module _ {V D : Type 0} (lt : D → D → Bool) (asym : (a b : D) → lt a b ≡ true → lt b a ≡ false)
    (compare : V → V → D) (base : List V) (l : ℕ) (pos : 0 < l) (g : Graph) (graph : IsGraph g)
    (vectors : g.nd ≤ length base) where
  abbrev Fit : List (Neighbor D) → List Bool → Type 0
  Fit = FitPool lt asym compare base l pos g graph vectors

  abbrev left : ℕ → List (Neighbor D) → List Bool → ℕ
  left = steps_left lt asym compare base l pos g graph vectors

  -- One round: `k` becomes what `NewSearchGetData` answers, with the pool and flags of its answer.
  round-Mirrors :
      (query : V) (k edge counter nk : ℕ) (flag : Bool) (retset : List (Neighbor D))
      (flags : List Bool) (a : Answer D)
      → k < l
      → new_search_get_data lt compare base l g query k edge retset flags [] [] ≡ some a
      → (s : Progress D) × (search_round lt compare base l g query k (record {
        retset = retset;
        flags = flags;
        nk = nk;
        early_term_counter = counter;
        early_term_flag = flag;
      })
          ≡ some s)
        × (a.next_k ≡ some (next_position s.nk k))
        × (s.retset ≡ a.retset)
        × (s.flags ≡ a.flags)
  unfolding search_round new_search_get_data
  round-Mirrors query k edge counter nk flag retset flags a under q =
      elim (Option-cases (get_elem? retset k)) [
        | inl fault ↦ absurd (ground arith)
        | inr (e, h) ↦ elim (Bool-cases e.flag) [
          | inr done ↦ (
            view lt compare base l counter flag start,
            ground arith,
            ground arith,
            ground arith,
            ground arith,
          )
          | inl waits ↦ elim (Option-cases (expand lt compare base l g query k e start)) [
            | inl fault ↦ absurd (ground arith)
            | inr (t, h') ↦
                let (counter', flag', q') =
                  node-Mirrors lt compare base l query g k e counter flag start t h' in
                (
                  view lt compare base l counter' flag' t,
                  ground (arith, q'),
                  ground arith,
                  ground arith,
                  ground arith,
                )
          ]
        ]
      ]
    where
      start : Expansion D
      start = record {
        retset = retset;
        flags = flags;
        nk = l;
        target_ids = [];
        compare_latency = [];
      }

  loop_ends :
      (query : V) (n k : ℕ) (s : Progress D)
      → Fit s.retset s.flags
      → left k s.retset s.flags < n
      → (t : Progress D) × (search_loop lt compare base l n g query k s ≡ some t)
        × Fit t.retset t.flags
  unfolding search_loop
  loop_ends query zero k s fit fuel = absurd (omega arith)
  loop_ends query (suc n) k s fit fuel = elim (Bool-cases (ltb k l)) [
    | inr ended ↦ (s, ground arith, fit)
    | inl under ↦
        let (a, q, good) =
          get_data-IsGood lt asym compare base l pos g graph vectors query k 0 s.retset s.flags
            fit in
        let (t, q', next, same, same') =
          round-Mirrors query k 0 s.early_term_counter s.nk s.early_term_flag s.retset s.flags a
            (ltb→lt k l under) q in
        let fit' : Fit t.retset t.flags =
          subst (Fit t.retset) (sym same') (subst (λ p. Fit p a.flags) (sym same) good.fit) in
        elim (Bool-cases t.early_term_flag) [
          | inl early ↦ (t, ground (arith, q'), fit')
          | inr more ↦
              let nearer = good.nearer (next_position t.nk k) next in
              let (u, q'', fit'') =
                loop_ends query n (next_position t.nk k) t fit'
                  (rw (same, same') (omega (arith, nearer))) in
              (u, ground (arith, q', q''), fit'')
        ]
  ]

  -- On a well-formed graph with a vector for each node, the loop of `NewSearch` from a well-formed
  -- pool ends, within (nodes without a flag + entries to be expanded) times (L + 1), plus L, rounds
  -- and a last test; its pool is well-formed, and so sorted.
  pub search_loop_ends :
      (query : V) (n : ℕ) (retset : List (Neighbor D)) (flags : List Bool)
      → Fit retset flags
      → left 0 retset flags < n
      → (s : Progress D) × (search_loop lt compare base l n g query 0 (start_search l retset flags)
          ≡ some s)
        × Fit s.retset s.flags
  search_loop_ends query n retset flags fit fuel =
      loop_ends query n 0 (start_search l retset flags) fit fuel
