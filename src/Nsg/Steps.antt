-- ===== src/Nsg/Steps.antt =====
-- The search by steps, as the query engines make it, and the search at a stretch: `NewSearchGetData`
-- again and again against the loop of `NewSearch`.
pub mod Agreement
pub mod Ends
use near_mem_nsg.Base.{ℕ, zero, suc, Bool, Option, none, some, List, [], ◌>>=◌}
use near_mem_nsg.Nsg.Pool.{Neighbor}
use near_mem_nsg.Nsg.Graph.{Graph}
use near_mem_nsg.Nsg.GetData.{Answer, new_search_get_data}

module _ {V D : Type 0} (lt : D → D → Bool) (compare : V → V → D) (base : List V) (l : ℕ) where
  -- The calls of a query engine, until one answers -1: the pool and the flags that are left.
  unfoldable pub steps :
      ℕ → Graph → V → ℕ → ℕ → List (Neighbor D) → List Bool → Option (List (Neighbor D) × List Bool)
  unfolding new_search_get_data
  steps zero g query k edge retset flags = none
  steps (suc n) g query k edge retset flags =
      new_search_get_data lt compare base l g query k edge retset flags [] [] >>= λ a.
      elim a.next_k [
        | none ↦ some (a.retset, a.flags)
        | some k' ↦ steps n g query k' a.edge_table_id a.retset a.flags
      ]
