-- ===== src/Sim/Setup/Ready.antt =====
-- From the globals of bins/simulation.cc the search of every query runs through.
use near_mem_nsg.Base.{
  ℕ, ◌+◌, ◌*◌, ◌≤◌, ◌<◌, ◌≡◌, refl, subst, Bool, true, false, some, List, arith, ltb, ◌==◌, length,
  get_elem?, replicate, All, length-replicate, u32_mod,
}
use near_mem_nsg.Files.{Matrix, load_data}
use near_mem_nsg.Nsg.Pool.{Neighbor}
use near_mem_nsg.Nsg.Pool.Sorted.{IsSorted}
use near_mem_nsg.Nsg.Graph.{Graph}
use near_mem_nsg.Nsg.File.{save}
use near_mem_nsg.Nsg.GetData.{new_search_init}
use near_mem_nsg.Nsg.GetData.Answers.{IsGraph}
use near_mem_nsg.Nsg.Steps.{steps}
use near_mem_nsg.Nsg.Steps.Ends.{steps_end}
use near_mem_nsg.Nsg.NewSearch.Start.{IsSort, new_search_init_fit}
use near_mem_nsg.Nsg.PreProcess.{Gather, pre_process}
use near_mem_nsg.Nsg.PreProcess.Gathered.{IsDistinct}
use near_mem_nsg.Nsg.PreProcess.Prepared.{IsPrepared, IsPrepared-own}
use near_mem_nsg.Nsg.PreProcess.Filled.{IsDrawn, pre_process_fills}
use near_mem_nsg.Driver.{Inputs}
use near_mem_nsg.Driver.Saved.{
  AreVectors, AreVectors-load, saved_inputs, loaded_as, not_fewer, is_equal, sized, sized-IsGraph,
  load_saved,
}
use near_mem_nsg.Sim.Setup.{QueryType, Globals, sizeof_type, load_index, make_globals, set_up}

set_up_lem :
    {D : Type 0} (unset : Neighbor D) (type : QueryType) (draws : List ℕ) (c : Inputs) (size : ℕ)
    (base query : Matrix) (g : Graph) (w : Globals D)
    → sizeof_type type ≡ some size
    → ltb c.l c.k ≡ false
    → load_data c.base_file ≡ some base
    → load_data c.query_file ≡ some query
    → load_index base query c.nsg_file ≡ some g
    → make_globals unset size base query g draws c.l ≡ some w
    → set_up unset type draws c ≡ some w
unfolding set_up
set_up_lem unset type draws c size base query g w e0 e1 e2 e3 e4 e5 = rw (e0, e1, e2, e3, e4) e5

make_globals_lem :
    {D : Type 0} (unset : Neighbor D) (size : ℕ) (base query : Matrix) (g : Graph) (draws : List ℕ)
    (l : ℕ) (s : Gather)
    → pre_process l g draws (replicate l 0) (replicate base.num false) ≡ some s
    → (s.tmp_l == l) ≡ true
    → make_globals unset size base query g draws l
      ≡ some (record {
        global_sizeof = size;
        base = base;
        query = query;
        index = g;
        global_retset = replicate (l + 1) unset;
        global_init_ids = s.init_ids;
        global_flags = s.flags;
      })
unfolding make_globals
make_globals_lem unset size base query g draws l s e e' = rw (e, e') refl

module _ {D : Type 0} (lt : D → D → Bool) (asym : (a b : D) → lt a b ≡ true → lt b a ≡ false)
    (compare : List ℕ → List ℕ → D) (sort : List (Neighbor D) → List (Neighbor D))
    (sorts : IsSort lt sort) (unset : Neighbor D) where
  -- The search of a query from the globals: its pool is filled, and the steps from it end with a
  -- sorted pool of nodes.
  abbrev pub IsSearchable : ℕ → ℕ → Globals D → List ℕ → Type 0
  IsSearchable l fuel w query =
      (retset pool : List (Neighbor D)) × (seen : List Bool) × (new_search_init lt compare
          w.base.rows l sort w.global_init_ids w.global_retset query
        ≡ some retset)
      × (steps lt compare w.base.rows l fuel w.index query 0 0 retset w.global_flags
          ≡ some (pool, seen))
      × IsSorted lt l pool
      × All (λ e. e.id < w.index.nd) pool

  -- With a `std::sort` that sorts; where the base file holds a vector for each node of a well-formed
  -- graph of at least `L` nodes, the query file at least one vector of the same dimension, and the
  -- index file that graph as it is saved, whose entry point has distinct edges, fewer than `L`; where
  -- `K` is at most `L`, the type of the data is known and `rand()` gives every node: the set-up does
  -- not fail, its initial ids are `L` different nodes, each with its flag set, and from its globals
  -- a query can be searched: its pool is filled, and the steps, at most (nodes + L + 1) times (L + 1),
  -- plus L, and the one that answers -1, leave a pool of nodes in order.
  pub set_up_ready :
      (base queries : List (List ℕ)) (dim l k size fuel : ℕ) (type : QueryType) (g : Graph)
      (entry draws words query : List ℕ)
      → sizeof_type type ≡ some size
      → AreVectors dim base
      → AreVectors dim queries
      → g.nd ≡ length base
      → IsGraph g
      → All (λ es. length es < u32_mod) g.final_graph
      → save g ≡ some words
      → get_elem? g.final_graph g.ep ≡ some entry
      → IsDistinct entry
      → length entry < l
      → l ≤ g.nd
      → ((id : ℕ) → id < g.nd → IsDrawn g.nd id draws)
      → k ≤ l
      → unset.id < g.nd
      → (g.nd + l + 1) * (l + 1) + l < fuel
      → (w : Globals D) × (set_up unset type draws (saved_inputs base queries words l k) ≡ some w)
        × IsPrepared l g.nd
            (record { init_ids = w.global_init_ids; tmp_l = l; flags = w.global_flags })
        × IsSearchable l fuel w query
  set_up_ready base queries dim l k size fuel type g entry draws words query known bases query_rows
        points graph small saved h distinct few nodes drawn short node enough =
      let graph' = sized-IsGraph g graph in
      let (s, gathered, full, ready) =
        pre_process_fills l (sized g) draws (replicate l 0) entry graph' h distinct few
          (length-replicate l 0) nodes drawn in
      let gathered' : pre_process l (sized g) draws (replicate l 0) (replicate (length base) false)
          ≡ some s =
        subst (λ n. pre_process l (sized g) draws (replicate l 0) (replicate n false) ≡ some s)
          points gathered in
      let ready' : IsPrepared l g.nd
          (record { init_ids = s.init_ids; tmp_l = l; flags = s.flags }) =
        record {
          full = ready.full;
          nodes = ready.nodes;
          flagged = ready.flagged;
          distinct = ready.distinct;
          only = ready.only;
        } in
      let vectors : g.nd ≤ length base = omega arith in
      let pos : 0 < l = omega arith in
      let (retset, q, fit, bound) =
        new_search_init_fit lt asym compare base l pos (sized g) graph' vectors sort unset
          s.init_ids s.flags query sorts node ready.full (IsPrepared-own l g.nd s ready)
          ready.nodes in
      let (pool, seen, q', fit') =
        steps_end lt asym compare base l pos (sized g) graph' vectors query fuel 0 0 retset s.flags
          fit (omega arith) in
      (
        globals s,
        set_up_lem unset type draws (saved_inputs base queries words l k) size (loaded_as dim base)
            (loaded_as dim queries) (sized g) (globals s) known (not_fewer l k short)
            (AreVectors-load dim base bases) (AreVectors-load dim queries query_rows)
            (rw (is_equal dim dim refl)
              (load_saved base g words bases.some_rows points graph small saved))
            (make_globals_lem unset size (loaded_as dim base) (loaded_as dim queries) (sized g)
              draws l s gathered' (is_equal s.tmp_l l full)),
        ready',
        (retset, pool, seen, q, q', fit'.sorted, fit'.ids),
      )
    where
      globals : Gather → Globals D
      globals s = record {
        global_sizeof = size;
        base = loaded_as dim base;
        query = loaded_as dim queries;
        index = sized g;
        global_retset = replicate (l + 1) unset;
        global_init_ids = s.init_ids;
        global_flags = s.flags;
      }
