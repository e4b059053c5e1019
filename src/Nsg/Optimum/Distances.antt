-- ===== src/Nsg/Optimum/Distances.antt =====
-- The distances in the pool of `NewSearch` of deps/nsg/src/index_nsg.cpp.
use mathlib.Core.List.Perm
use mathlib.Core.Option.{some-injective}
use near_mem_nsg.Base.{
  ℕ, zero, suc, ◌+◌, ◌-◌, ◌≤◌, ◌<◌, ◌≡◌, sym, ap, subst, ◌∙◌, ◌⊎◌, inl, inr, Bool, true, false,
  some, List, [], ◌∷◌, ◌++◌, arith, ltb, Bool-cases, Option-cases, length, get_elem?, set,
  replicate, length-set, get_elem?-append, All-get_elem?, lt-get_elem?, length-perm, All-perm,
}
use near_mem_nsg.Nsg.Pool.{Neighbor}
use near_mem_nsg.Nsg.Pool.Sorted.{insert-IsSorted}
use near_mem_nsg.Nsg.Graph.{Graph}
use near_mem_nsg.Nsg.GetData.{next_position, new_search_init}
use near_mem_nsg.Nsg.GetData.Answers.{IsGraph}
use near_mem_nsg.Nsg.NewSearch.{
  Progress, insert_neighbor, new_neighbor, search_edge, search_edges, search_node, search_round,
  search_loop,
}
use near_mem_nsg.Nsg.NewSearch.Start.{IsSort, ranked_lem, new_search_init_pool}
use near_mem_nsg.Nsg.PreProcess.{Gather}
use near_mem_nsg.Nsg.PreProcess.Prepared.{IsPrepared, IsPrepared-own}
use near_mem_nsg.Nsg.Optimum.Insertion.{Outcome-entries}
use near_mem_nsg.Nsg.Optimum.Reached.{entry-set}
use near_mem_nsg.Nsg.Optimum.Start.{IsFresh, ranked-IsFresh}

module _ {V D : Type 0} (lt : D → D → Bool) (compare : V → V → D) (base : List V) (l : ℕ)
    (query : V) where
  -- The first `L` entries have the distances of their nodes to the query, taken in either order.
  abbrev pub AreDistances : List (Neighbor D) → Type 0
  AreDistances pool =
      (i : ℕ) (e : Neighbor D) (v : V)
      → i < l
      → get_elem? pool i ≡ some e
      → get_elem? base e.id ≡ some v
      → (e.distance ≡ compare query v) ⊎ (e.distance ≡ compare v query)

  -- With room for an insertion.
  abbrev pub Holds : List (Neighbor D) → Type 0
  Holds pool = (l < length pool) × AreDistances pool

  module _ (asym : (a b : D) → lt a b ≡ true → lt b a ≡ false) (pos : 0 < l) where
    insert-Holds :
        (id : ℕ) (v : V) (s t : Progress D)
        → get_elem? base id ≡ some v
        → insert_neighbor lt compare base l id (compare query v) s ≡ some t
        → Holds s.retset
        → Holds t.retset
    unfolding insert_neighbor
    insert-Holds id v s t q h (room, x) =
        let (r, pool, ends, o, same, order) = insert-IsSorted lt s.retset l nn room asym pos in
        let made : pool ≡ t.retset = ground (arith, ends) in
        subst Holds made (
          omega (arith, same),
          λ i e v' w g q'. elim (Outcome-entries lt l s.retset nn r pool i e room o w g) [
            | inl new ↦ inl (
                ap (λ e. e.distance) new
                ∙ ap (compare query) (some-injective v v' (sym q ∙ rw new at q')))
            | inr (j, w', g') ↦ x j e v' w' g' q'
          ],
        )
      where
        nn : Neighbor D
        nn = record { id = id; distance = compare query v; flag = true }

    edge-Holds :
        (id : ℕ) (s t : Progress D)
        → search_edge lt compare base l query id s ≡ some t
        → Holds s.retset
        → Holds t.retset
    unfolding search_edge new_neighbor
    edge-Holds id s t h x = elim (Option-cases (get_elem? s.flags id)) [
      | inl fault ↦ absurd (ground arith)
      | inr (true, q) ↦ let same : s ≡ t = ground arith in subst (λ t. Holds t.retset) same x
      | inr (false, q) ↦ elim (Option-cases (get_elem? base id)) [
        | inl fault ↦ absurd (ground arith)
        | inr (v, g) ↦ elim (Option-cases (get_elem? s.retset (l - 1))) [
          | inl fault ↦ absurd (ground arith)
          | inr (last, g') ↦ elim (Bool-cases (lt (compare query v) last.distance)) [
            | inl nearer ↦ insert-Holds id v seen t g (ground arith) x
            | inr farther ↦ let same : seen ≡ t = ground arith in subst (λ t. Holds t.retset) same x
          ]
        ]
      ]
    ]
      where
        seen : Progress D
        seen = record s { flags = set s.flags id true }

    edges-Holds :
        (ids : List ℕ) (s t : Progress D)
        → search_edges lt compare base l query ids s ≡ some t
        → Holds s.retset
        → Holds t.retset
    unfolding search_edges
    edges-Holds [] s t h x = subst (λ t. Holds t.retset) (some-injective s t h) x
    edges-Holds (id ∷ ids) s t h x =
        elim (Option-cases (search_edge lt compare base l query id s)) [
          | inl fault ↦ absurd (ground arith)
          | inr (u, q) ↦ edges-Holds ids u t (ground arith) (edge-Holds id s u q x)
        ]

    cleared-Holds :
        (retset : List (Neighbor D)) (k : ℕ) (e : Neighbor D)
        → get_elem? retset k ≡ some e
        → Holds retset
        → Holds (set retset k (record e { flag = false }))
    cleared-Holds retset k e h (room, x) = (
      omega (arith, length-set retset k (record e { flag = false })),
      λ i y v w g q.
          elim (entry-set retset k i (record e { flag = false }) y (lt-get_elem? retset k e h) g) [
            | inl (at, same) ↦
                subst (λ y. (y.distance ≡ compare query v) ⊎ (y.distance ≡ compare v query))
                  (sym same) (x i e v w (rw at h) (rw same at q))
            | inr (apart, g') ↦ x i y v w g' q
          ],
    )

    module _ (g : Graph) where
      round-Holds :
          (k : ℕ) (s t : Progress D)
          → search_round lt compare base l g query k s ≡ some t
          → Holds s.retset
          → Holds t.retset
      unfolding search_round search_node
      round-Holds k s t h x = elim (Option-cases (get_elem? s.retset k)) [
        | inl fault ↦ absurd (ground arith)
        | inr (e, q) ↦ elim (Bool-cases e.flag) [
          | inr done ↦
              let same : record s { nk = l } ≡ t = ground arith in
              subst (λ t. Holds t.retset) same x
          | inl waits ↦ elim (Option-cases (get_elem? g.final_graph e.id)) [
            | inl fault ↦ absurd (ground arith)
            | inr (edges, q') ↦
                edges-Holds edges
                  (record s { nk = l; retset = set s.retset k (record e { flag = false }) }) t
                  (ground arith) (cleared-Holds s.retset k e q x)
          ]
        ]
      ]

      pub loop-Holds :
          (n k : ℕ) (s t : Progress D)
          → search_loop lt compare base l n g query k s ≡ some t
          → Holds s.retset
          → Holds t.retset
      unfolding search_loop
      loop-Holds zero k s t h x = absurd (ground arith)
      loop-Holds (suc n) k s t h x = elim (Bool-cases (ltb k l)) [
        | inr over ↦ let same : s ≡ t = ground arith in subst (λ t. Holds t.retset) same x
        | inl under ↦ elim (Option-cases (search_round lt compare base l g query k s)) [
          | inl fault ↦ absurd (ground arith)
          | inr (u, q) ↦ elim (Bool-cases u.early_term_flag) [
            | inl stop ↦
                let same : u ≡ t = ground arith in
                subst (λ t. Holds t.retset) same (round-Holds k s u q x)
            | inr on ↦
                loop-Holds n (next_position u.nk k) u t (ground arith) (round-Holds k s u q x)
          ]
        ]
      ]

module _ {V D : Type 0} (lt : D → D → Bool) (asym : (a b : D) → lt a b ≡ true → lt b a ≡ false)
    (compare : V → V → D) (dset : IsSet D) (base : List V) (l : ℕ) (pos : 0 < l) (g : Graph)
    (graph : IsGraph g) (vectors : g.nd ≤ length base)
    (sort : List (Neighbor D) → List (Neighbor D)) (sorts : IsSort lt sort) (blank : Neighbor D)
    (query : V) where
  abbrev Fresh : Neighbor D → Type 0
  Fresh = IsFresh lt compare base query

  Fresh-IsProp : (e : Neighbor D) → IsProp (Fresh e)
  Fresh-IsProp e =
      let p : (v : V) → IsProp (get_elem? base e.id ≡ some v → e.distance ≡ compare v query) =
        λ v. hlevel dset in
      hlevel p

  -- The pool that `NewSearchInit` makes of gathered ids.
  pub new_search_init-AreDistances :
      (s : Gather) (retset : List (Neighbor D))
      → IsPrepared l g.nd s
      → new_search_init lt compare base l sort s.init_ids (replicate (l + 1) blank) query
        ≡ some retset
      → AreDistances lt compare base l query retset
  new_search_init-AreDistances s retset ready q =
      let (entries, q', n, own) =
        ranked_lem lt asym compare base l pos g graph vectors query s.init_ids
          (IsPrepared-own l g.nd s ready) in
      let size : length entries ≡ l = n ∙ ready.full in
      let pool =
        new_search_init_pool lt asym compare base l pos g graph vectors sort blank s.init_ids
          entries query ready.full size q' in
      let made = some-injective (sort entries ++ blank ∷ []) retset (sym pool ∙ q) in
      let long : length (sort entries) ≡ l = length-perm (sorts.permutes entries) ∙ size in
      let fresh =
        All-perm Fresh Fresh-IsProp entries (sort entries) (Perm.symm (sorts.permutes entries))
          (ranked-IsFresh lt compare base query l s.init_ids entries q').0 in
      subst (AreDistances lt compare base l query) made (λ i e v w h h'.
        let inside = get_elem?-append (sort entries) (blank ∷ []) i (omega (arith, long)) in
        inr ((All-get_elem? Fresh (sort entries) i e fresh (sym inside ∙ h)).1 v h'))
