-- ===== src/Driver/Completes.antt =====
-- The driver of bins/main.cc runs through.
use near_mem_nsg.Base.{
  ℕ, zero, suc, ◌+◌, ◌*◌, ◌%◌, ◌≤◌, ◌<◌, ◌≡◌, refl, sym, ap, subst, ◌∙◌, Bool, true, false, some,
  List, [], ◌∷◌, map, arith, ltb, ◌==◌, length, get_elem?, take, replicate, All, length-replicate,
  get_elem?-lt, u32_mod, inc32,
}
use near_mem_nsg.Files.Vectors.{row_end, vector_at-row}
use near_mem_nsg.Files.{Matrix, load_data, save_result}
use near_mem_nsg.Nsg.Pool.{Neighbor}
use near_mem_nsg.Nsg.Graph.{Graph}
use near_mem_nsg.Nsg.File.{save, load}
use near_mem_nsg.Nsg.File.RoundTrip.{blank}
use near_mem_nsg.Nsg.GetData.Answers.{IsGraph}
use near_mem_nsg.Nsg.NewSearch.{new_search}
use near_mem_nsg.Nsg.NewSearch.Start.{IsSort}
use near_mem_nsg.Nsg.PreProcess.{Gather, pre_process}
use near_mem_nsg.Nsg.PreProcess.Gathered.{IsDistinct}
use near_mem_nsg.Nsg.PreProcess.Prepared.{IsPrepared}
use near_mem_nsg.Nsg.PreProcess.Filled.{IsDrawn, pre_process_fills}
use near_mem_nsg.Nsg.PreProcess.Returns.{new_search_returns}
use near_mem_nsg.Driver.Saved.{
  AreVectors, AreVectors-load, saved_inputs, loaded_as, not_fewer, is_equal, sized, sized-IsGraph,
  load_saved,
}
use near_mem_nsg.Driver.{Inputs, query_num, search_queries, run, main}

-- `k` ids of the `nd` nodes.
pub record AreIds (k nd : ℕ) (ids : List ℕ) : Type 0 where
  pub count : length ids ≡ k
  pub own : All (λ id. id < nd) ids

AreIds-take :
    {D : Type 0} (k nd : ℕ) (pool : List (Neighbor D))
    → k ≤ length pool
    → All (λ e. e.id < nd) pool
    → AreIds k nd (map (λ e. e.id) (take k pool))
AreIds-take zero nd pool long own = record { count = refl; own = tt }
AreIds-take (suc k) nd [] long own = absurd (omega arith)
AreIds-take (suc k) nd (e ∷ es) long own =
    let rest = AreIds-take k nd es (omega arith) own.1 in
    record { count = ap suc rest.count; own = (own.0, rest.own) }

module _ {D : Type 0} (lt : D → D → Bool) (asym : (a b : D) → lt a b ≡ true → lt b a ≡ false)
    (compare : List ℕ → List ℕ → D) (sort : List (Neighbor D) → List (Neighbor D))
    (sorts : IsSort lt sort) (unset : Neighbor D) (fuel : ℕ) (dset : IsSet D) where
  -- The results of `n` searches from query `i` on, each at the place of its query.
  pub record AreAnswers (base queries : List (List ℕ)) (l k : ℕ) (g : Graph) (s : Gather) (n i : ℕ)
      (res : List (List ℕ)) : Type 0 where
    pub count : length res ≡ n
    pub ids : All (AreIds k g.nd) res
    pub each :
        (j : ℕ) (query : List ℕ)
        → j < n
        → i + j < query_num
        → get_elem? queries (i + j) ≡ some query
        → get_elem? res j
          ≡ new_search lt compare base l sort unset fuel g s.init_ids s.flags query k

  module _ (base queries : List (List ℕ)) (l k : ℕ) (pos : 0 < l) (g : Graph) (graph : IsGraph g)
      (vectors : g.nd ≤ length base) (node : unset.id < g.nd) (short : k ≤ l)
      (enough : (g.nd + l + 1) * (l + 1) + l < fuel) (all : query_num ≤ length queries) (dim : ℕ)
      (even : All (λ r. length r ≡ dim) queries) (range : query_num * dim ≤ u32_mod) where
    search_queries_lem :
        (s : Gather) (n i : ℕ)
        → IsPrepared l g.nd s
        → i < query_num
        → (res : List (List ℕ)) × (search_queries lt compare sort unset fuel base dim queries l k g
              s n i
            ≡ some res)
          × AreAnswers base queries l k g s n i res
    unfolding search_queries
    search_queries_lem s zero i ready w =
        ([], refl, record { count = refl; ids = tt; each = λ j query h. absurd (omega arith) })
    search_queries_lem s (suc n) i ready w =
        let (query, q) = get_elem?-lt queries i (omega arith) in
        let (pool, q', order, long, own, near) =
          new_search_returns lt asym compare base l pos g graph vectors sort sorts unset node dset s
            query k fuel ready short enough in
        let (res, q'', answers) =
          search_queries_lem s n (inc32 i % query_num) ready (omega arith) in
        (
          map (λ e. e.id) (take k pool) ∷ res,
          rw (vector_at-row dim queries i query even (row_within i w) q, q', q'') refl,
          record {
            count = ap suc answers.count;
            ids = (AreIds-take k g.nd pool long own, answers.ids);
            each = at query pool res q q' answers.each;
          },
        )
      where
        row_within : (i : ℕ) → i < query_num → i * dim + dim ≤ u32_mod
        row_within i h = omega (arith, row_end i query_num dim h)

        at :
            (query : List ℕ) (pool : List (Neighbor D)) (res : List (List ℕ))
            → get_elem? queries i ≡ some query
            → new_search lt compare base l sort unset fuel g s.init_ids s.flags query k
              ≡ some (map (λ e. e.id) (take k pool))
            → ((j : ℕ) (query : List ℕ)
                → j < n
                → inc32 i % query_num + j < query_num
                → get_elem? queries (inc32 i % query_num + j) ≡ some query
                → get_elem? res j
                  ≡ new_search lt compare base l sort unset fuel g s.init_ids s.flags query k)
            → (j : ℕ) (query' : List ℕ) → j < suc n
            → i + j < query_num
            → get_elem? queries (i + j) ≡ some query'
            → get_elem? (map (λ e. e.id) (take k pool) ∷ res) j
              ≡ new_search lt compare base l sort unset fuel g s.init_ids s.flags query' k
        at query pool res q q' each zero query' h v e =
            let here : i + 0 ≡ i = omega arith in
            let same : query ≡ query' =
              ground (arith, q, subst (λ m. get_elem? queries m ≡ some query') here e) in
            sym q'
            ∙ ap (λ v. new_search lt compare base l sort unset fuel g s.init_ids s.flags v k) same
        at query pool res q q' each (suc j) query' h v e =
            let next : inc32 i % query_num + j ≡ i + suc j = omega arith in
            each j query' (omega arith) (omega arith) (rw next e)

  run_lem :
      (base query : Matrix) (g : Graph) (draws : List ℕ) (c : Inputs) (s : Gather)
      (res : List (List ℕ))
      → pre_process c.l g draws (replicate c.l 0) (replicate base.num false) ≡ some s
      → (s.tmp_l == c.l) ≡ true
      → search_queries lt compare sort unset fuel base.rows base.dim query.rows c.l c.k g s
          query_num 0
        ≡ some res
      → run lt compare sort unset fuel base query g draws c ≡ some res
  unfolding run
  run_lem base query g draws c s res gathered full found = rw (gathered, full) found

  main_lem :
      (draws : List ℕ) (c : Inputs) (base query : Matrix) (g : Graph) (res : List (List ℕ))
      → ltb c.l c.k ≡ false
      → load_data c.base_file ≡ some base
      → load_data c.query_file ≡ some query
      → (base.dim == query.dim) ≡ true
      → load (blank base.num) c.nsg_file ≡ some g
      → run lt compare sort unset fuel base query g draws c ≡ some res
      → main lt compare sort unset fuel draws c ≡ some (save_result res)
  unfolding main
  main_lem draws c base query g res e0 e1 e2 e3 e4 e5 = rw (e0, e1, e2, e3, e4, e5) refl

  -- With a `std::sort` that sorts; where the base file holds a vector for each node of a
  -- well-formed graph of at least `L` nodes, the query file at least 1000 vectors of the same
  -- dimension, 1000 of which have at most 2 ^ 32 words, and the index file that graph as it is
  -- saved, whose entry point has distinct edges, fewer than `L`; where `K` is at most `L`, `rand()`
  -- gives every node, and the fuel is more than (nodes + L + 1) times (L + 1), plus L: the driver
  -- writes a result file for exactly 1000 queries, `K` nodes for each, which are what `NewSearch`
  -- finds for the query at that place.
  pub main_completes :
      (base queries : List (List ℕ)) (dim l k : ℕ) (g : Graph) (entry draws words : List ℕ)
      → AreVectors dim base
      → AreVectors dim queries
      → query_num ≤ length queries
      → query_num * dim ≤ u32_mod
      → g.nd ≡ length base
      → IsGraph g
      → All (λ es. length es < u32_mod) g.final_graph
      → save g ≡ some words
      → get_elem? g.final_graph g.ep ≡ some entry
      → IsDistinct entry
      → length entry < l
      → l ≤ g.nd
      → ((id : ℕ) → id < g.nd → IsDrawn g.nd id draws)
      → k ≤ l
      → unset.id < g.nd
      → (g.nd + l + 1) * (l + 1) + l < fuel
      → (s : Gather) × (res : List (List ℕ)) × (main lt compare sort unset fuel draws
            (saved_inputs base queries words l k)
          ≡ some (save_result res))
        × AreAnswers base queries l k (sized g) s query_num 0 res
  main_completes base queries dim l k g entry draws words bases query_rows all range points graph
        small saved h distinct few nodes drawn short node enough =
      let g' = sized g in
      let graph' = sized-IsGraph g graph in
      let (s, gathered, full, ready) =
        pre_process_fills l g' draws (replicate l 0) entry graph' h distinct few
          (length-replicate l 0) nodes drawn in
      let (res, found, answers) =
        search_queries_lem base queries l k (omega arith) g' graph' (omega arith) node short enough
          all dim query_rows.even range s query_num 0 ready (omega arith) in
      let e5 : pre_process l g' draws (replicate l 0) (replicate (length base) false) ≡ some s =
        subst (λ n. pre_process l g' draws (replicate l 0) (replicate n false) ≡ some s) points
          gathered in
      (
        s,
        res,
        main_lem draws (saved_inputs base queries words l k) (loaded_as dim base)
            (loaded_as dim queries) g' res (not_fewer l k short) (AreVectors-load dim base bases)
            (AreVectors-load dim queries query_rows) (is_equal dim dim refl)
            (load_saved base g words bases.some_rows points graph small saved)
            (run_lem (loaded_as dim base) (loaded_as dim queries) g' draws
              (saved_inputs base queries words l k) s res e5 (is_equal s.tmp_l l full) found),
        answers,
      )
