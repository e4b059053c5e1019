-- ===== src/Nsg/PreProcess/Returns.antt =====
-- `NewSearch` after `PreProcess`, and `Search`: a search from the gathered ids returns.
use near_mem_nsg.Base.{
  ℕ, ◌+◌, ◌*◌, ◌≤◌, ◌<◌, ◌≡◌, Bool, true, false, Option, some, List, map, arith, length, get_elem?,
  take, replicate, All, length-replicate,
}
use near_mem_nsg.Nsg.Pool.{Neighbor}
use near_mem_nsg.Nsg.Pool.Sorted.{IsSorted}
use near_mem_nsg.Nsg.Graph.{Graph}
use near_mem_nsg.Nsg.GetData.Answers.{IsGraph}
use near_mem_nsg.Nsg.NewSearch.{new_search, start_search}
use near_mem_nsg.Nsg.Optimum.Distances.{AreDistances, loop-Holds, new_search_init-AreDistances}
use near_mem_nsg.Nsg.NewSearch.Start.{IsSort, new_search_init_fit}
use near_mem_nsg.Nsg.NewSearch.Ends.{search_loop_ends}
use near_mem_nsg.Nsg.PreProcess.{Gather, pre_process, search}
use near_mem_nsg.Nsg.PreProcess.Gathered.{IsDistinct}
use near_mem_nsg.Nsg.PreProcess.Prepared.{IsPrepared, IsPrepared-own}
use near_mem_nsg.Nsg.PreProcess.Filled.{IsDrawn, pre_process_fills}

module _ {V D : Type 0} (lt : D → D → Bool) (asym : (a b : D) → lt a b ≡ true → lt b a ≡ false)
    (compare : V → V → D) (base : List V) (l : ℕ) (pos : 0 < l) (g : Graph) (graph : IsGraph g)
    (vectors : g.nd ≤ length base) where
  -- The ids of the first entries of a pool of nodes that is in order, by the distances of its nodes to
  -- the query in either order of the two.
  abbrev pub FromPool : V → ℕ → Option (List ℕ) → Type 0
  FromPool query n o =
      (pool : List (Neighbor D)) × (o ≡ some (map (λ e. e.id) (take n pool)))
      × IsSorted lt l pool
      × (n ≤ length pool)
      × All (λ e. e.id < g.nd) pool
      × AreDistances lt compare base l query pool

  module _ (sort : List (Neighbor D) → List (Neighbor D)) (sorts : IsSort lt sort)
      (blank : Neighbor D) (node : blank.id < g.nd) (dset : IsSet D) where
    -- With a `std::sort` that sorts, and distances whose equalities are propositions, on a
    -- well-formed graph with a vector for each node, and with initial ids as `PreProcess` gathers
    -- them, `NewSearch` does not fault and returns within (nodes + L + 1) times (L + 1), plus L,
    -- rounds and a last test; the ids it writes are those of the first entries of a pool of nodes
    -- that is in order and whose entries each have the distance of their node to the query.
    pub new_search_returns :
        (s : Gather) (query : V) (n fuel : ℕ)
        → IsPrepared l g.nd s
        → n ≤ l
        → (g.nd + l + 1) * (l + 1) + l < fuel
        → FromPool query n
            (new_search lt compare base l sort blank fuel g s.init_ids s.flags query n)
    unfolding new_search
    new_search_returns s query n fuel ready few enough =
        let (retset, q, fit, bound) =
          new_search_init_fit lt asym compare base l pos g graph vectors sort blank s.init_ids
            s.flags query sorts node ready.full (IsPrepared-own l g.nd s ready) ready.nodes in
        let (t, q', fit') =
          search_loop_ends lt asym compare base l pos g graph vectors query fuel retset s.flags fit
            (omega arith) in
        (
          t.retset,
          ground (arith, q, q', fit'.room),
          fit'.sorted,
          omega (arith, fit'.room),
          fit'.ids,
          (loop-Holds lt compare base l query asym pos g fuel 0 (start_search l retset s.flags) t q'
              (
                fit.room,
                new_search_init-AreDistances lt asym compare dset base l pos g graph vectors sort
                    sorts blank query s retset ready q,
              )).1,
        )

    -- With a `std::sort` that sorts, and distances whose equalities are propositions, on a
    -- well-formed graph of at least `L` nodes with a vector for each, whose entry point has
    -- distinct edges, fewer than `L`, and where `rand()` gives every node, `Search` does not fault
    -- and returns within (nodes + L + 1) times (L + 1), plus L, rounds and a last test; the ids it
    -- writes are those of the first entries of a pool of nodes that is in order and whose entries
    -- each have the distance of their node to the query.
    pub search_returns :
        (draws entry : List ℕ) (query : V) (n fuel : ℕ)
        → get_elem? g.final_graph g.ep ≡ some entry
        → IsDistinct entry
        → length entry < l
        → l ≤ g.nd
        → ((id : ℕ) → id < g.nd → IsDrawn g.nd id draws)
        → n ≤ l
        → (g.nd + l + 1) * (l + 1) + l < fuel
        → FromPool query n (search lt compare base l sort blank fuel g draws query n)
    unfolding search new_search pre_process
    search_returns draws entry query n fuel h distinct short nodes drawn few enough =
        let (s, q, full, ready) =
          pre_process_fills l g draws (replicate l 0) entry graph h distinct short
            (length-replicate l 0) nodes drawn in
        let (pool, q', order, long, own, near) =
          new_search_returns s query n fuel ready few enough in
        (pool, ground (arith, q, full, q'), order, long, own, near)
