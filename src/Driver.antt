-- ===== src/Driver.antt =====
-- bins/main.cc: the driver of the library's own search. Its `load_data` and `save_result` are those of
-- bins/simulation.cc word for word. The names of the files and the numbers come from a configuration
-- that is an argument; with `N` and `M` both 1 there is one thread and one round.
pub mod Saved
pub mod Completes
use near_mem_nsg.Base.{
  ℕ, zero, suc, ◌%◌, Bool, false, Option, none, some, List, [], ◌∷◌, ltb, ◌==◌, if◌then◌else◌,
  ◌>>=◌, replicate, inc32,
}
use near_mem_nsg.Files.{Matrix, vector_at, load_data, save_result}
use near_mem_nsg.Nsg.Pool.{Neighbor}
use near_mem_nsg.Nsg.Graph.{Graph}
use near_mem_nsg.Nsg.File.{load}
use near_mem_nsg.Nsg.File.RoundTrip.{blank}
use near_mem_nsg.Nsg.NewSearch.{new_search}
use near_mem_nsg.Nsg.PreProcess.{Gather, pre_process}

-- What the configuration and the files give.
pub record Inputs : Type 0 where
  pub base_file : Option (List ℕ)
  pub query_file : Option (List ℕ)
  pub nsg_file : Option (List ℕ)
  pub l : ℕ
  pub k : ℕ

-- `query_num = 1000;`
abbrev pub query_num : ℕ
query_num = 1000

module _ {D : Type 0} (lt : D → D → Bool) (compare : List ℕ → List ℕ → D)
    (sort : List (Neighbor D) → List (Neighbor D)) (unset : Neighbor D) (fuel : ℕ) where
  -- The loop over the queries, from query `i` on: each search starts from a copy of the flags.
  unfoldable pub search_queries :
      List (List ℕ) → ℕ → List (List ℕ) → ℕ → ℕ → Graph → Gather → ℕ → ℕ → Option (List (List ℕ))
  search_queries base dim queries l k g s zero i = some []
  search_queries base dim queries l k g s (suc n) i = do
    query ← vector_at dim queries i
    tmp ← new_search lt compare base l sort unset fuel g s.init_ids s.flags query k
    res ← search_queries base dim queries l k g s n (inc32 i % query_num)
    some (tmp ∷ res)

  -- `main` from the loaded files on, given the values of `rand()`: the results.
  unfoldable pub run : Matrix → Matrix → Graph → List ℕ → Inputs → Option (List (List ℕ))
  run base query g draws c = do
    s ← pre_process c.l g draws (replicate c.l 0) (replicate base.num false)
    if s.tmp_l == c.l
        then search_queries base.rows base.dim query.rows c.l c.k g s query_num 0
        else none

  -- `main`: the words of the result file; `none` where the program exits early, fails an assertion,
  -- faults or does not end.
  unfoldable pub main : List ℕ → Inputs → Option (List ℕ)
  main draws c = if ltb c.l c.k then none else do
    base ← load_data c.base_file
    query ← load_data c.query_file
    g ← (if base.dim == query.dim then load (blank base.num) c.nsg_file else none)
    res ← run base query g draws c
    some (save_result res)
