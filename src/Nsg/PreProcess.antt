-- ===== src/Nsg/PreProcess.antt =====
-- `PreProcess` and `Search` of deps/nsg/src/index_nsg.cpp: the initial ids of a search, and the
-- search that gathers its own. The values of `rand()` are an argument, in the order of the calls.
pub mod Gathered
pub mod Prepared
pub mod Filled
pub mod Returns
use near_mem_nsg.Base.{
  ℕ, ◌+◌, ◌%◌, Bool, true, false, Option, none, some, List, [], ◌∷◌, ltb, ◌==◌, if◌then◌else◌,
  ◌>>=◌, get_elem?, replicate,
}
use near_mem_nsg.Nsg.Pool.{Neighbor, write}
use near_mem_nsg.Nsg.Graph.{Graph}
use near_mem_nsg.Nsg.NewSearch.{new_search, start_search, search_loop, indices_of}
use near_mem_nsg.Nsg.GetData.{new_search_init}

-- `init_ids`, `tmp_l` and `flags`.
pub record Gather : Type 0 where
  pub init_ids : List ℕ
  pub tmp_l : ℕ
  pub flags : List Bool

-- An id is written at `tmp_l` and flagged.
unfoldable pub gather : ℕ → Gather → Option Gather
gather id s = do
  ids ← write s.init_ids s.tmp_l id
  flags ← write s.flags id true
  some (record { init_ids = ids; tmp_l = s.tmp_l + 1; flags = flags })

-- The first loop: the edges of the entry point.
unfoldable pub gather_all : List ℕ → Gather → Option Gather
gather_all [] s = some s
gather_all (id ∷ ids) s = gather id s >>= gather_all ids

unfoldable pub gather_new : ℕ → Gather → Option Gather
gather_new id s = get_elem? s.flags id >>= λ seen. if seen then some s else gather id s

module _ (l : ℕ) where
  -- The loops over the edges of these, which break when `tmp_l == L` after an edge.
  unfoldable pub gather_edges : List ℕ → Gather → Option Gather
  gather_edges [] s = some s
  gather_edges (id ∷ ids) s =
      gather_new id s >>= λ t. elim (t.tmp_l == l) [ true ↦ some t | false ↦ gather_edges ids t ]

  unfoldable pub gather_nodes : Graph → List ℕ → Gather → Option Gather
  unfolding gather_edges
  gather_nodes g [] s = some s
  gather_nodes g (n ∷ ns) s = get_elem? g.final_graph n >>= λ edges. gather_edges edges s >>= λ t.
      elim (t.tmp_l == l) [ true ↦ some t | false ↦ gather_nodes g ns t ]

  -- `while (tmp_l < L)` for as many rounds as values of `rand()` are given; `% nd_` faults at 0.
  unfoldable pub gather_random : ℕ → List ℕ → Gather → Option Gather
  gather_random nd [] s = some s
  gather_random nd (r ∷ rs) s =
      if ltb s.tmp_l l
      then ((if nd == 0 then none else gather_new (r % nd) s) >>= gather_random nd rs)
      else some s

  -- The three loops.
  unfoldable pub gather_init : Graph → List ℕ → Gather → Option Gather
  unfolding gather_all gather_nodes gather_random
  gather_init g draws s = do
    edges ← get_elem? g.final_graph g.ep
    s1 ← gather_all edges s
    s2 ← gather_nodes g edges s1
    gather_random g.nd draws s2

  -- `PreProcess` on the vectors that it is given. It has returned if `tmp_l` has reached `L`.
  unfoldable pub pre_process : Graph → List ℕ → List ℕ → List Bool → Option Gather
  unfolding gather_init
  pre_process g draws init_ids flags =
      gather_init g draws (record { init_ids = init_ids; tmp_l = 0; flags = flags })

module _ {V D : Type 0} (lt : D → D → Bool) (compare : V → V → D) (base : List V) (l : ℕ) where
  -- `Search`: its own initial ids and flags, the pool of these, sorted, the loop, and the ids of the
  -- `n` nearest; `none` also where the values of `rand()` or the fuel run out.
  unfoldable pub search :
      (List (Neighbor D) → List (Neighbor D))
      → Neighbor D
      → ℕ
      → Graph
      → List ℕ
      → V
      → ℕ
      → Option (List ℕ)
  unfolding gather_init search_loop
  search sort blank fuel g draws query n = do
    found ←
        gather_init l g draws
          (record { init_ids = replicate l 0; tmp_l = 0; flags = replicate g.nd false })
    ids ← if found.tmp_l == l then some found.init_ids else none
    retset ← new_search_init lt compare base l sort ids (replicate (l + 1) blank) query
    s ← search_loop lt compare base l fuel g query 0 (start_search l retset found.flags)
    indices_of n s.retset
