-- ===== src/Nsg/Optimum/Search.antt =====
-- A whole search by steps, from the gathered ids to a pool that no neighbour could improve.
use near_mem_nsg.Base.{
  ℕ, ◌+◌, ◌*◌, ◌≤◌, ◌<◌, ◌≡◌, Bool, true, false, some, List, arith, length, replicate,
}
use near_mem_nsg.Nsg.Pool.{Neighbor}
use near_mem_nsg.Nsg.Pool.Sorted.{IsSorted}
use near_mem_nsg.Nsg.Graph.{Graph}
use near_mem_nsg.Nsg.GetData.{new_search_init}
use near_mem_nsg.Nsg.GetData.Answers.{IsGraph}
use near_mem_nsg.Nsg.NewSearch.Start.{IsSort, new_search_init_fit}
use near_mem_nsg.Nsg.Steps.{steps}
use near_mem_nsg.Nsg.PreProcess.{Gather}
use near_mem_nsg.Nsg.PreProcess.Prepared.{IsPrepared, IsPrepared-own}
use near_mem_nsg.Nsg.Optimum.{IsMeasured}
use near_mem_nsg.Nsg.Optimum.Start.{new_search_init-IsReached}
use near_mem_nsg.Nsg.Optimum.Found.{IsOptimum, steps-Reached, Reached-IsOptimum}

module _ {V D : Type 0} (lt : D → D → Bool) (asym : (a b : D) → lt a b ≡ true → lt b a ≡ false)
    (chain : (a b c : D) → lt a b ≡ false → lt b c ≡ false → lt a c ≡ false) (dset : IsSet D)
    (compare : V → V → D) (symmetric : (a b : V) → compare a b ≡ compare b a) (base : List V)
    (l : ℕ) (pos : 0 < l) (g : Graph) (graph : IsGraph g) (vectors : g.nd ≤ length base)
    (sort : List (Neighbor D) → List (Neighbor D)) (sorts : IsSort lt sort) (blank : Neighbor D)
    (node : blank.id < g.nd) where
  -- The search of a query by steps ends, with its first `L` entries in order and at the distances of
  -- their nodes, and at an optimum.
  abbrev pub FindsOptimum : ℕ → Gather → V → Type 0
  FindsOptimum fuel s query =
      (retset pool : List (Neighbor D)) × (seen : List Bool) × (new_search_init lt compare base l
          sort s.init_ids (replicate (l + 1) blank) query
        ≡ some retset)
      × (steps lt compare base l fuel g query 0 0 retset s.flags ≡ some (pool, seen))
      × IsSorted lt l pool
      × IsMeasured lt compare base l query pool
      × IsOptimum lt asym chain compare base l pos g graph vectors query pool

  -- Where `<` orders the distances, distances are symmetric and `std::sort` sorts: on a well-formed
  -- graph with a vector for each node, from initial ids as `PreProcess` gathers them and with fuel
  -- above (nodes + L + 1) times (L + 1), plus L, a search by `NewSearchInit` and `NewSearchGetData`
  -- ends with a pool whose first `L` entries are in order and have the distances of their nodes to
  -- the query, and every neighbour of one of these stands among them or is no nearer to the query
  -- than the last.
  pub search-FindsOptimum :
      (s : Gather) (query : V) (fuel : ℕ)
      → IsPrepared l g.nd s
      → (g.nd + l + 1) * (l + 1) + l < fuel
      → FindsOptimum fuel s query
  search-FindsOptimum s query fuel ready enough =
      let (retset, q, fit, bound) =
        new_search_init_fit lt asym compare base l pos g graph vectors sort blank s.init_ids s.flags
          query sorts node ready.full (IsPrepared-own l g.nd s ready) ready.nodes in
      let start =
        new_search_init-IsReached lt asym compare symmetric dset base l pos g graph vectors sort
          sorts blank query s retset ready q in
      let (pool, seen, q', fit', reached) =
        steps-Reached lt asym chain compare base l pos g graph vectors query fuel 0 0 retset s.flags
          fit start (omega arith) in
      (
        retset,
        pool,
        seen,
        q,
        q',
        fit'.sorted,
        reached.measured,
        Reached-IsOptimum lt asym chain compare base l pos g graph vectors query pool seen reached,
      )
