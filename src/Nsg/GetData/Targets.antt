-- ===== src/Nsg/GetData/Targets.antt =====
-- The targets of a step of the search: neighbours of the entry that it expands.
use near_mem_nsg.Base.{
  ℕ, ◌+◌, ◌-◌, ◌≤◌, ◌≡◌, ap, ◌∙◌, ◌⊎◌, inl, inr, Bool, true, false, some, List, [], ◌∷◌, ◌++◌,
  arith, leb, Bool-cases, Option-cases, length, get_elem?, set, length-append,
}
use near_mem_nsg.Nsg.Pool.{Neighbor}
use near_mem_nsg.Nsg.Counted.{insert_with_compare_count}
use near_mem_nsg.Nsg.Graph.{Graph}
use near_mem_nsg.Nsg.GetData.{
  Expansion, Answer, insert_target, new_target, visit_edge, visit_edges, expand,
  new_search_get_data,
}

module _ {V D : Type 0} (lt : D → D → Bool) (compare : V → V → D) (base : List V) (l : ℕ) where
  insert_target-targets :
      (id : ℕ) (dist : D) (s t : Expansion D)
      → insert_target lt compare base l id dist s ≡ some t
      → t.target_ids ≡ s.target_ids
  unfolding insert_target
  insert_target-targets id dist s t h =
      elim (Option-cases (
        insert_with_compare_count lt s.retset l (record { id = id; distance = dist; flag = true })
          0)) [ inl fault ↦ absurd (ground arith) | inr (c, q) ↦ ground arith ]

  new_target-targets :
      (query : V) (id : ℕ) (s t : Expansion D)
      → new_target lt compare base l query id s ≡ some t
      → t.target_ids ≡ s.target_ids ++ id ∷ []
  unfolding new_target
  new_target-targets query id s t h = elim (Option-cases (get_elem? base id)) [
    | inl fault ↦ absurd (ground arith)
    | inr (v, q) ↦ elim (Option-cases (get_elem? s.retset (l - 1))) [
      | inl fault ↦ absurd (ground arith)
      | inr (last, q') ↦ elim (Bool-cases (lt (compare query v) last.distance)) [
        | inl near ↦
            insert_target-targets id (compare query v)
              (record s { flags = set s.flags id true; target_ids = s.target_ids ++ id ∷ [] }) t
              (ground arith)
        | inr far ↦ ground arith
      ]
    ]
  ]

  visit_edges-targets :
      (query : V) (ids : List ℕ) (s t : Expansion D)
      → visit_edges lt compare base l query ids s ≡ some t
      → length t.target_ids ≤ length s.target_ids + length ids
  unfolding visit_edges visit_edge
  visit_edges-targets query [] s t h = ground arith
  visit_edges-targets query (id ∷ ids) s t h = elim (Option-cases (get_elem? s.flags id)) [
    | inl fault ↦ absurd (ground arith)
    | inr (true, q) ↦ ground (arith, visit_edges-targets query ids s t)
    | inr (false, q) ↦ elim (Option-cases (new_target lt compare base l query id s)) [
      | inl fault ↦ absurd (ground arith)
      | inr (u, q') ↦
          let rest = visit_edges-targets query ids u t (ground arith) in
          let one =
            ap length (new_target-targets query id s u q') ∙ length-append s.target_ids (id ∷ []) in
          omega (arith, rest, one)
    ]
  ]

  -- A step without targets, or one that has expanded a node and has at most its neighbours as
  -- targets.
  pub get_data-targets :
      (g : Graph) (query : V) (k edge : ℕ) (retset : List (Neighbor D)) (flags : List Bool)
      (a : Answer D)
      → new_search_get_data lt compare base l g query k edge retset flags [] [] ≡ some a
      → (a.target_ids ≡ [])
        ⊎ ((edges : List ℕ) × (get_elem? g.final_graph a.edge_table_id ≡ some edges)
            × (length a.target_ids ≤ length edges))
  unfolding new_search_get_data expand
  get_data-targets g query k edge retset flags a h = elim (Bool-cases (leb l k)) [
    | inl over ↦ inl (ground arith)
    | inr under ↦ elim (Option-cases (get_elem? retset k)) [
      | inl fault ↦ absurd (ground arith)
      | inr (e, q) ↦ elim (Bool-cases e.flag) [
        | inr done ↦ inl (ground arith)
        | inl waits ↦ elim (Option-cases (get_elem? g.final_graph e.id)) [
          | inl fault ↦ absurd (ground arith)
          | inr (edges, q') ↦
              elim (Option-cases (visit_edges lt compare base l query edges (cleared e))) [
                | inl fault ↦ absurd (ground arith)
                | inr (t, q'') ↦
                    let few = visit_edges-targets query edges (cleared e) t q'' in
                    inr (edges, ground arith, ground (arith, few))
              ]
        ]
      ]
    ]
  ]
    where
      cleared : Neighbor D → Expansion D
      cleared e = record {
        retset = set retset k (record e { flag = false });
        flags = flags;
        nk = l;
        target_ids = [];
        compare_latency = [];
      }
