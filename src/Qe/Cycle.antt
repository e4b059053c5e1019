-- ===== src/Qe/Cycle.antt =====
-- `Query_Engine::do_cycle` of src/qe.cc as a whole, with `working` and `all_end` of src/qe.h.
use near_mem_nsg.Base.{ℕ, Bool, true, false, not, Option, some, if◌then◌else◌, inc64}
use near_mem_nsg.Struct.{
  SearchState, query_init, query_init_finish, query_get_data, query_pending_edge,
  query_pending_distance, query_finish,
}
use near_mem_nsg.Qe.State.{Index, Config, QueryEngine, Engine}
use near_mem_nsg.Qe.Init
use near_mem_nsg.Qe.GetData
use near_mem_nsg.Qe.Edge
use near_mem_nsg.Qe.Distance

-- `query_state != query_finish`.
abbrev pub is_working : SearchState → Bool
is_working query_finish = false
is_working _ = true

module _ {R F : Type 0} where
  unfoldable pub working : QueryEngine R F → Bool
  working q = is_working q.query_state

  unfoldable pub all_end : QueryEngine R F → Bool
  unfolding working
  all_end q = not (working q)

  stalled : Engine R F → Engine R F
  stalled e = record e { stats = record e.stats { stall_qe = inc64 e.stats.stall_qe } }

module _ {R F : Type 0} (cfg : Config R F) (index : Index R F) (current_cycle : ℕ) where
  -- The `switch` on the state.
  unfoldable pub by_state : Engine R F → SearchState → Option (Bool × Engine R F)
  by_state e query_init = Init.query_init cfg index e
  by_state e query_init_finish = Init.query_init_finish cfg index e
  by_state e query_get_data = GetData.query_get_data cfg index current_cycle e
  by_state e query_pending_edge = Edge.query_pending_edge current_cycle e
  by_state e query_pending_distance = Distance.query_pending_distance current_cycle e
  by_state e query_finish = some (true, e)

  unfoldable pub do_cycle : Engine R F → Option (Bool × Engine R F)
  unfolding working stalled
  do_cycle e =
      if working e.qe then by_state (stalled e) e.qe.query_state else Init.fetch cfg index e
