-- ===== src/Checks/Searches.antt =====
-- Examples for the search of deps/nsg, on four vectors of one dimension.
use near_mem_nsg.Base.{
  ℕ, zero, suc, ◌+◌, ◌-◌, ◌≤◌, ◌<◌, ◌≡◌, refl, ◌⊎◌, inl, inr, Bool, true, false, some, List, [],
  ◌∷◌, arith, ltb, length, get_elem?,
}
use near_mem_nsg.Nsg.Pool.{Neighbor, write, insert_into_pool}
use near_mem_nsg.Nsg.Pool.Outcome.{Outcome}
use near_mem_nsg.Nsg.Pool.Sorted.{IsSorted, insert-IsSorted}
use near_mem_nsg.Nsg.Counted.{Counted, insert_with_compare_count}
use near_mem_nsg.Nsg.Counted.Agreement.{forget, insert_counted}
use near_mem_nsg.Nsg.Counted.Bounds.{insert_bounded}
use near_mem_nsg.Nsg.Graph.{Graph, get_size_and_addr}
use near_mem_nsg.Nsg.File.{save, load}
use near_mem_nsg.Nsg.File.RoundTrip.{sizes_up_to, blank, load-save}
use near_mem_nsg.Nsg.File.Address.{get_size_and_addr_end}
use near_mem_nsg.Nsg.GetData.{Answer, new_search_init, new_search_get_data}
use near_mem_nsg.Nsg.GetData.Answers.{IsGraph, IsGood, get_data-IsGood}
use near_mem_nsg.Nsg.NewSearch.{new_search, search_edge, search_loop, start_search}
use near_mem_nsg.Nsg.Steps.{steps}
use near_mem_nsg.Nsg.Steps.Agreement.{found, steps-search_loop}
use near_mem_nsg.Nsg.Steps.Ends.{FitPool, steps_end}
use near_mem_nsg.Nsg.PreProcess.{Gather, gather, gather_new, pre_process, search}
use near_mem_nsg.Nsg.PreProcess.Gathered.{IsIn, IsDistinct}
use near_mem_nsg.Nsg.PreProcess.Prepared.{IsPrepared, pre_process-IsPrepared}
use near_mem_nsg.Nsg.PreProcess.Filled.{IsDrawn, pre_process_fills}
use near_mem_nsg.Nsg.PreProcess.Returns.{FromPool, new_search_returns, search_returns}
use near_mem_nsg.Nsg.Optimum.Search.{FindsOptimum, search-FindsOptimum}
use near_mem_nsg.Checks.Sorting.{sort, sort-IsSort}

abbrev distance : ℕ → ℕ → ℕ
distance a b = (a - b) + (b - a)

pub ltb-asym : (a b : ℕ) → ltb a b ≡ true → ltb b a ≡ false
ltb-asym a b h = ground arith

abbrev vectors : List ℕ
vectors = 10 ∷ 20 ∷ 30 ∷ 40 ∷ []

abbrev pub graph : Graph
graph = record {
  nd = 4;
  ep = 0;
  width = 2;
  final_graph = (1 ∷ 2 ∷ []) ∷ (2 ∷ 3 ∷ []) ∷ (3 ∷ 0 ∷ []) ∷ (0 ∷ []) ∷ [];
  accumulate_nsg_size = 2 ∷ 4 ∷ 6 ∷ 7 ∷ [];
}

pub graph-IsGraph : IsGraph graph
graph-IsGraph = record {
  lists = refl;
  edges = (
    (omega arith, (omega arith, tt)),
    ((omega arith, (omega arith, tt)), ((omega arith, (omega arith, tt)), ((omega arith, tt), tt))),
  );
}

abbrev entry : ℕ → ℕ → Neighbor ℕ
entry id d = record { id = id; distance = d; flag = true }

-- The three nodes that the initial ids of a search from 35 are, and the slot past them.
abbrev pool : List (Neighbor ℕ)
pool = entry 2 5 ∷ entry 1 15 ∷ entry 0 25 ∷ entry 0 0 ∷ []

abbrev flags : List Bool
flags = true ∷ true ∷ true ∷ false ∷ []

insert-IsSorted_example :
    (r : ℕ) × (p : List (Neighbor ℕ)) × (insert_into_pool ltb pool 3 (entry 3 5) ≡ some (r, p))
    × Outcome ltb pool 3 (entry 3 5) r p
    × (length p ≡ 4)
    × (IsSorted ltb 3 pool → IsSorted ltb 3 p)
insert-IsSorted_example =
    insert-IsSorted ltb pool 3 (entry 3 5) (omega arith) ltb-asym (omega arith)

insert_counted_example :
    forget (insert_with_compare_count ltb pool 3 (entry 3 16) 0)
    ≡ insert_into_pool ltb pool 3 (entry 3 16)
insert_counted_example = insert_counted ltb pool 3 (entry 3 16) 0

-- What an insertion between the last two gives.
abbrev counted : Counted ℕ
counted = record {
  position = 2;
  pool = entry 2 5 ∷ entry 1 15 ∷ entry 3 16 ∷ entry 0 25 ∷ [];
  compare_count = 2;
}

counted_lem : insert_with_compare_count ltb pool 3 (entry 3 16) 0 ≡ some counted
unfolding insert_with_compare_count
counted_lem = refl

insert_bounded_example : 2 ≤ 0 + 2 + 3
insert_bounded_example =
    insert_bounded ltb pool 3 (entry 3 16) 2 0 counted (omega arith) (omega arith) (omega arith)
      counted_lem

load-save_example :
    (ws : List ℕ) × (save graph ≡ some ws)
    × (load (blank 4) (some ws)
        ≡ some (record graph { accumulate_nsg_size = sizes_up_to 0 graph.final_graph }))
load-save_example =
    load-save graph (omega arith) refl
      (omega arith, (omega arith, (omega arith, (omega arith, tt))))

get_size_and_addr_end_example : get_size_and_addr graph 1 ≡ some (8, 16)
get_size_and_addr_end_example = get_size_and_addr_end graph 1 (2 ∷ 3 ∷ []) refl (omega arith) refl

-- The graph has no other than its own vectors.
enough : 4 ≤ length vectors
enough = omega arith

three : 0 < 3
three = omega arith

pool_fit : FitPool ltb ltb-asym distance vectors 3 three graph graph-IsGraph enough pool flags
pool_fit = record {
  room = omega arith;
  nodes = refl;
  ids = (omega arith, (omega arith, (omega arith, (omega arith, tt))));
  sorted = λ i a b w ga gb. pool_sorted i a b w ga gb;
}
  where
    pool_sorted :
        (i : ℕ) (a b : Neighbor ℕ)
        → suc i < 3
        → get_elem? pool i ≡ some a
        → get_elem? pool (suc i) ≡ some b
        → ltb b.distance a.distance ≡ false
    pool_sorted zero a b w ga gb = ground arith
    pool_sorted (suc zero) a b w ga gb = ground arith
    pool_sorted (suc (suc i)) a b w ga gb = absurd (omega arith)

get_data-IsGood_example :
    (a : Answer ℕ) × (new_search_get_data ltb distance vectors 3 graph 35 0 9 pool flags [] []
      ≡ some a)
    × IsGood ltb ltb-asym distance vectors 3 three graph graph-IsGraph enough 0 pool flags a
get_data-IsGood_example =
    get_data-IsGood ltb ltb-asym distance vectors 3 three graph graph-IsGraph enough 35 0 9 pool
      flags pool_fit

steps-search_loop_example :
    steps ltb distance vectors 3 30 graph 35 0 9 pool flags
    ≡ found ltb distance vectors 3
        (search_loop ltb distance vectors 3 30 graph 35 0 (start_search 3 pool flags))
steps-search_loop_example =
    steps-search_loop ltb distance vectors 3 (omega arith) 35 graph 30 9 pool flags

steps_end_example :
    (p : List (Neighbor ℕ)) × (seen : List Bool) × (steps ltb distance vectors 3 30 graph 35 0 9
        pool flags
      ≡ some (p, seen))
    × FitPool ltb ltb-asym distance vectors 3 three graph graph-IsGraph enough p seen
steps_end_example =
    steps_end ltb ltb-asym distance vectors 3 three graph graph-IsGraph enough 35 30 0 9 pool flags
      pool_fit (omega arith)

pub one_two : IsDistinct (1 ∷ 2 ∷ [])
one_two = ((λ e. omega (arith, e), tt), (tt, tt))

pre_process-IsPrepared_example :
    (s : Gather) × (pre_process 4 graph
        (5 ∷ 4 ∷ [])
        (7 ∷ 7 ∷ 7 ∷ 7 ∷ [])
        (false ∷ false ∷ false ∷ false ∷ [])
      ≡ some s)
    × ((s.tmp_l < 4) ⊎ IsPrepared 4 4 s)
pre_process-IsPrepared_example =
    pre_process-IsPrepared 4 graph (5 ∷ 4 ∷ []) (7 ∷ 7 ∷ 7 ∷ 7 ∷ []) (1 ∷ 2 ∷ []) graph-IsGraph refl
      one_two (omega arith) refl

-- The values of `rand()`: 5, 4, 11 and 6.
pub drawn : (id : ℕ) → id < 4 → IsDrawn 4 id (5 ∷ 4 ∷ 11 ∷ 6 ∷ [])
drawn zero h = inr (inl refl)
drawn (suc zero) h = inl refl
drawn (suc (suc zero)) h = inr (inr (inr (inl refl)))
drawn (suc (suc (suc zero))) h = inr (inr (inl refl))
drawn (suc (suc (suc (suc id)))) h = absurd (omega arith)

pre_process_fills_example :
    (s : Gather) × (pre_process 4 graph
        (5 ∷ 4 ∷ 11 ∷ 6 ∷ [])
        (7 ∷ 7 ∷ 7 ∷ 7 ∷ [])
        (false ∷ false ∷ false ∷ false ∷ [])
      ≡ some s)
    × (s.tmp_l ≡ 4)
    × IsPrepared 4 4 s
pre_process_fills_example =
    pre_process_fills 4 graph (5 ∷ 4 ∷ 11 ∷ 6 ∷ []) (7 ∷ 7 ∷ 7 ∷ 7 ∷ []) (1 ∷ 2 ∷ []) graph-IsGraph
      refl one_two (omega arith) refl (omega arith) drawn

-- Three gathered ids.
abbrev pub gathered : Gather
gathered = record { init_ids = 1 ∷ 2 ∷ 3 ∷ []; tmp_l = 3; flags = false ∷ true ∷ true ∷ true ∷ [] }

gathered_only : (id : ℕ) → get_elem? gathered.flags id ≡ some true → IsIn id gathered.init_ids
gathered_only zero h = absurd (ground arith)
gathered_only (suc zero) h = inl refl
gathered_only (suc (suc zero)) h = inr (inl refl)
gathered_only (suc (suc (suc zero))) h = inr (inr (inl refl))
gathered_only (suc (suc (suc (suc id)))) h = absurd (ground arith)

pub gathered-IsPrepared : IsPrepared 3 4 gathered
gathered-IsPrepared = record {
  full = refl;
  nodes = refl;
  flagged = (refl, (refl, (refl, tt)));
  distinct = (
    (λ e. omega (arith, e), (λ e. omega (arith, e), tt)),
    ((λ e. omega (arith, e), tt), (tt, tt)),
  );
  only = gathered_only;
}

pub numbers-IsSet : IsSet ℕ
numbers-IsSet = hlevel

new_search_returns_example :
    FromPool ltb ltb-asym distance vectors 3 three graph graph-IsGraph enough 35 2 (
      new_search ltb distance vectors 3 sort
        (entry 0 0)
        40
        graph
        (1 ∷ 2 ∷ 3 ∷ [])
        gathered.flags
        35
        2)
new_search_returns_example =
    new_search_returns ltb ltb-asym distance vectors 3 three graph graph-IsGraph enough sort
      sort-IsSort (entry 0 0) (omega arith) numbers-IsSet gathered 35 2 40 gathered-IsPrepared
      (omega arith) (omega arith)

search_returns_example :
    FromPool ltb ltb-asym distance vectors 3 three graph graph-IsGraph enough 35 2
      (search ltb distance vectors 3 sort (entry 0 0) 40 graph (5 ∷ 4 ∷ 11 ∷ 6 ∷ []) 35 2)
search_returns_example =
    search_returns ltb ltb-asym distance vectors 3 three graph graph-IsGraph enough sort sort-IsSort
      (entry 0 0) (omega arith) numbers-IsSet (5 ∷ 4 ∷ 11 ∷ 6 ∷ []) (1 ∷ 2 ∷ []) 35 2 40 refl
      one_two (omega arith) (omega arith) drawn (omega arith) (omega arith)

-- The two vectors nearest to 32 are 30 and 40.
search_run :
    search ltb distance vectors 3 sort (entry 0 0) 40 graph (5 ∷ 4 ∷ 11 ∷ 6 ∷ []) 32 2
    ≡ some (2 ∷ 3 ∷ [])
unfolding search gather gather_new write new_search_init search_edge
search_run = refl

pub ltb-chain : (a b c : ℕ) → ltb a b ≡ false → ltb b c ≡ false → ltb a c ≡ false
ltb-chain a b c h h' = ground arith

distance_symmetric : (a b : ℕ) → distance a b ≡ distance b a
distance_symmetric a b = omega arith

search-FindsOptimum_example :
    FindsOptimum ltb ltb-asym ltb-chain numbers-IsSet distance distance_symmetric vectors 3 three
      graph graph-IsGraph enough sort sort-IsSort
      (entry 0 0)
      (omega arith)
      40
      gathered
      35
search-FindsOptimum_example =
    search-FindsOptimum ltb ltb-asym ltb-chain numbers-IsSet distance distance_symmetric vectors 3
      three graph graph-IsGraph enough sort sort-IsSort (entry 0 0) (omega arith) gathered 35 40
      gathered-IsPrepared (omega arith)
