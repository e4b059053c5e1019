-- ===== src/Nsg/Steps/Agreement.antt =====
-- The two searches find the same pool.
use near_mem_nsg.Base.{
  ℕ, zero, suc, ◌-◌, ◌≤◌, ◌≡◌, refl, sym, ap, ◌∙◌, inl, inr, Bool, true, false, Option, none, some,
  List, [], ◌∷◌, arith, ltb, Bool-cases, Option-cases, get_elem?,
}
use near_mem_nsg.Nsg.Pool.{Neighbor, insert_into_pool}
use near_mem_nsg.Nsg.Pool.Position.{insert_position}
use near_mem_nsg.Nsg.Counted.{insert_with_compare_count}
use near_mem_nsg.Nsg.Counted.Agreement.{forget, insert_counted}
use near_mem_nsg.Nsg.Graph.{Graph}
use near_mem_nsg.Nsg.GetData.{
  Expansion, next_position, insert_target, new_target, visit_edge, visit_edges, expand,
  new_search_get_data,
}
use near_mem_nsg.Nsg.NewSearch.{
  Progress, insert_neighbor, new_neighbor, search_edge, search_edges, search_node, search_round,
  search_loop, start_search,
}
use near_mem_nsg.Nsg.Steps.{steps}

module _ {V D : Type 0} (lt : D → D → Bool) (compare : V → V → D) (base : List V) (l : ℕ) where
  -- A step as a round of `NewSearch` that has not begun to count insertions at the end of the pool.
  abbrev view : Expansion D → Progress D
  view s = record {
    retset = s.retset;
    flags = s.flags;
    nk = s.nk;
    early_term_counter = 0;
    early_term_flag = false;
  }

  abbrev viewed : Option (Expansion D) → Option (Progress D)
  viewed none = none
  viewed (some s) = some (view s)

  module _ (short : l ≤ 148) (query : V) where
    insert_target-view :
        (id : ℕ) (dist : D) (s : Expansion D)
        → viewed (insert_target lt compare base l id dist s)
          ≡ insert_neighbor lt compare base l id dist (view s)
    unfolding insert_target insert_neighbor
    insert_target-view id dist s =
        elim (Option-cases (insert_with_compare_count lt s.retset l nn 0)) [
          | inl fault ↦ ground (arith, insert_counted lt s.retset l nn 0)
          | inr (c, g) ↦
              let same : insert_into_pool lt s.retset l nn ≡ some (c.position, c.pool) =
                sym (insert_counted lt s.retset l nn 0) ∙ ap forget g in
              let low = insert_position lt s.retset l nn c.position c.pool same in ground (arith)
        ]
      where
        nn : Neighbor D
        nn = record { id = id; distance = dist; flag = true }

    new_target-view :
        (id : ℕ) (s : Expansion D)
        → viewed (new_target lt compare base l query id s)
          ≡ new_neighbor lt compare base l query id (view s)
    unfolding new_target new_neighbor
    new_target-view id s = elim (Option-cases (get_elem? base id)) [
      | inl fault ↦ ground arith
      | inr (v, g) ↦ elim (Option-cases (get_elem? s.retset (l - 1))) [
        | inl fault ↦ ground arith
        | inr (e, g') ↦ elim (Bool-cases (lt (compare query v) e.distance)) [
          | inl nearer ↦ rw (g, g', nearer) (insert_target-view id (compare query v) _)
          | inr farther ↦ ground arith
        ]
      ]
    ]

    visit_edge-view :
        (id : ℕ) (s : Expansion D)
        → viewed (visit_edge lt compare base l query id s)
          ≡ search_edge lt compare base l query id (view s)
    unfolding visit_edge search_edge
    visit_edge-view id s = elim (Option-cases (get_elem? s.flags id)) [
      | inl fault ↦ ground arith
      | inr (b, g) ↦ elim (Bool-cases b) [
        | inl seen ↦ ground arith
        | inr fresh ↦ rw (g, fresh) (new_target-view id s)
      ]
    ]

    visit_edges-view :
        (ids : List ℕ) (s : Expansion D)
        → viewed (visit_edges lt compare base l query ids s)
          ≡ search_edges lt compare base l query ids (view s)
    unfolding visit_edges search_edges
    visit_edges-view [] s = refl
    visit_edges-view (id ∷ ids) s = elim (Option-cases (visit_edge lt compare base l query id s)) [
      | inl fault ↦ ground (arith, visit_edge-view id s)
      | inr (t, g) ↦ ground (arith, visit_edge-view id s, visit_edges-view ids t)
    ]

    expand-view :
        (g : Graph) (k : ℕ) (e : Neighbor D) (s : Expansion D)
        → viewed (expand lt compare base l g query k e s)
          ≡ search_node lt compare base l g query k e (view s)
    unfolding expand search_node
    expand-view g k e s = elim (Option-cases (get_elem? g.final_graph e.id)) [
      | inl fault ↦ ground arith
      | inr (edges, h) ↦ rw h (visit_edges-view edges _)
    ]

  -- The pool and the flags that `NewSearch` is left with.
  abbrev pub found : Option (Progress D) → Option (List (Neighbor D) × List Bool)
  found none = none
  found (some s) = some (s.retset, s.flags)

  module _ (short : l ≤ 148) (query : V) (g : Graph) where
    steps-from :
        (n k edge nk : ℕ) (retset : List (Neighbor D)) (flags : List Bool)
        → steps lt compare base l n g query k edge retset flags
          ≡ found (
              search_loop lt compare base l n g query k (record {
                retset = retset;
                flags = flags;
                nk = nk;
                early_term_counter = 0;
                early_term_flag = false;
              }))
    unfolding steps search_loop search_round new_search_get_data
    steps-from zero k edge nk retset flags = refl
    steps-from (suc n) k edge nk retset flags = elim (Bool-cases (ltb k l)) [
      | inr ended ↦ ground arith
      | inl more ↦ elim (Option-cases (get_elem? retset k)) [
        | inl fault ↦ ground arith
        | inr (e, h) ↦ elim (Bool-cases e.flag) [
          | inr done ↦ ground (arith, steps-from n (next_position l k) edge l retset flags)
          | inl open_ ↦ elim (Option-cases (expand lt compare base l g query k e start)) [
            | inl fault ↦ ground (arith, expand-view short query g k e start)
            | inr (t, h') ↦ ground (
              arith,
              expand-view short query g k e start,
              steps-from n (next_position t.nk k) e.id t.nk t.retset t.flags,
            )
          ]
        ]
      ]
    ]
      where
        start : Expansion D
        start = record {
          retset = retset;
          flags = flags;
          nk = l;
          target_ids = [];
          compare_latency = [];
        }

    -- With a pool of at most 148 entries, where no insertion can count for the early termination, the
    -- steps of a query engine leave the pool and the flags that `NewSearch` has at the end of its
    -- loop, and fault where it faults.
    pub steps-search_loop :
        (n edge : ℕ) (retset : List (Neighbor D)) (flags : List Bool)
        → steps lt compare base l n g query 0 edge retset flags
          ≡ found (search_loop lt compare base l n g query 0 (start_search l retset flags))
    steps-search_loop n edge retset flags = steps-from n 0 edge l retset flags
