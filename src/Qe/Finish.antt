-- ===== src/Qe/Finish.antt =====
-- The end of a search in src/qe.cc.
use near_mem_nsg.Base.{ℕ, ◌≡◌, Bool, Option, none, some, arith, inc64}
use near_mem_nsg.Struct.{SearchState}
use near_mem_nsg.Qe.State.{SearchStep, Index, Config, Engine}
use near_mem_nsg.Qe.GetData.{by_step}
use near_mem_nsg.Qe.GetData
use near_mem_nsg.Qe.Cycle.{do_cycle, by_state, working}

module _ {R F : Type 0} (cfg : Config R F) (index : Index R F) (current_cycle : ℕ) where
  -- The search on the index for the state that an engine is in.
  abbrev pub next_step : Engine R F → SearchStep R F
  next_step e =
      index.new_search_get_data e.qe.retset e.qe.flags e.qe.query_id e.qe.while_k e.qe.edge_table_id

  finishes :
      (e : Engine R F) (k : Option ℕ) (b : Bool) (e' : Engine R F)
      → k ≡ none
      → by_step cfg index current_cycle e (next_step e) k (next_step e).target_ids ≡ some (b, e')
      → (e'.qe.query_state ≡ SearchState.query_finish) × (e'.ports ≡ e.ports)
  unfolding by_step
  finishes e none b e' n h = (ground arith, ground arith)
  finishes e (some k) b e' n h = absurd (ground arith)

  -- Where the index says that the search has ended, the engine ends its query and leaves its
  -- channels.
  pub do_cycle_finish :
      (e : Engine R F) (b : Bool) (e' : Engine R F)
      → e.qe.query_state ≡ SearchState.query_get_data
      → (next_step e).next_k ≡ none
      → do_cycle cfg index current_cycle e ≡ some (b, e')
      → (e'.qe.query_state ≡ SearchState.query_finish) × (e'.ports ≡ e.ports)
  unfolding do_cycle by_state working GetData.query_get_data
  do_cycle_finish e b e' w n h =
      finishes (record e { stats = record e.stats { stall_qe = inc64 e.stats.stall_qe } })
        (next_step e).next_k b e' n (ground arith)
