-- ===== src/Sim/Index.antt =====
-- The index and the globals of bins/simulation.cc as a query engine of src/qe.cc works with them:
-- `global_index`, its vectors and its queries, behind the record that the model of the engine takes.
-- A result set is `none` after a step of the search that faults.
pub mod Sound
pub mod Step
pub mod Stages
pub mod Runs
use near_mem_nsg.Base.{
  ℕ, ◌+◌, ◌^◌, Bool, false, Option, none, some, List, [], ◌∷◌, ◌>>=◌, get_elem?, replicate,
}
use near_mem_nsg.Struct.{SearchState, RequestState, QeDcTask, WhileRequestState, read_not_send}
use near_mem_nsg.Mapping.{EdgeTable}
use near_mem_nsg.Nsg.Pool.{Neighbor}
use near_mem_nsg.Nsg.Graph.{Graph, get_size_and_addr}
use near_mem_nsg.Nsg.GetData.{Answer, new_search_init, new_search_get_data}
use near_mem_nsg.Qe.{Ports, SearchStep, Index, Config, QueryEngine, Engine}
use near_mem_nsg.Qe
use near_mem_nsg.Files.{vector_at}
use near_mem_nsg.Sim.Setup.{Globals}

-- `retset[i].id`.
unfoldable pub entry_id : {D : Type 0} → Option (List (Neighbor D)) → ℕ → Option ℕ
entry_id none i = none
entry_id (some retset) i = get_elem? retset i >>= λ e. some e.id

-- The answer of `NewSearchGetData` to an engine.
unfoldable pub step_of :
    {D : Type 0} → Option (Answer D) → SearchStep (Option (List (Neighbor D))) (List Bool)
step_of none = record {
  next_k = none;
  retset = none;
  flags = [];
  edge_table_id = 0;
  target_ids = [];
  compare_latency = [];
}
step_of (some a) = record {
  next_k = a.next_k;
  retset = some a.retset;
  flags = a.flags;
  edge_table_id = a.edge_table_id;
  target_ids = a.target_ids;
  compare_latency = a.compare_latency;
}

-- `GetSizeAndAddr` for each node; what is not there has a size that no `int` holds.
unfoldable pub edge_table : Graph → EdgeTable
edge_table g = record {
  edge_size = λ id. elim (get_size_and_addr g id) [ none ↦ 2 ^ 31 | some (size, addr) ↦ size ];
  edge_addr = λ id. elim (get_size_and_addr g id) [ none ↦ 0 | some (size, addr) ↦ addr ];
}

module _ {D : Type 0} (lt : D → D → Bool) (compare : List ℕ → List ℕ → D)
    (sort : List (Neighbor D) → List (Neighbor D)) (l : ℕ) (w : Globals D) where
  -- `NewSearchInit` for the vector of a query.
  unfoldable pub start_search : List ℕ → Option (List (Neighbor D)) → ℕ → Option (List (Neighbor D))
  start_search init_ids retset query_id = do
    pool ← retset
    query ← vector_at w.base.dim w.query.rows query_id
    new_search_init lt compare w.base.rows l sort init_ids pool query

  -- `NewSearchGetData` for the vector of a query, with no targets yet.
  unfoldable pub ask : Option (List (Neighbor D)) → List Bool → ℕ → Option ℕ → ℕ → Option (Answer D)
  ask retset flags query_id while_k edge_table_id = do
    pool ← retset
    query ← vector_at w.base.dim w.query.rows query_id
    k ← while_k
    new_search_get_data lt compare w.base.rows l w.index query k edge_table_id pool flags [] []

  -- `global_index`.
  unfoldable pub global_index : Index (Option (List (Neighbor D))) (List Bool)
  unfolding edge_table
  global_index = record {
    node_id = entry_id;
    new_search_init = λ init_ids retset query_id.
        start_search init_ids retset query_id >>= λ pool. some (some pool);
    new_search_get_data = λ retset flags query_id while_k edge_table_id.
        step_of (ask retset flags query_id while_k edge_table_id);
    edges = edge_table w.index;
  }

  -- The other globals that an engine reads.
  abbrev pub engine_globals : Config (Option (List (Neighbor D))) (List Bool)
  engine_globals = record {
    l = l;
    layout = record { points_num = w.base.num; dim = w.base.dim; global_sizeof = w.global_sizeof };
    global_retset = some w.global_retset;
    global_init_ids = w.global_init_ids;
    global_flags = w.global_flags;
  }

  -- Cycles of an engine, each at some time and with its channels as it finds them: the other
  -- components work on them in between.
  unfoldable pub cycles :
      List (ℕ × Ports)
      → Engine (Option (List (Neighbor D))) (List Bool)
      → Option (Engine (Option (List (Neighbor D))) (List Bool))
  unfolding global_index
  cycles [] e = some e
  cycles ((now, ports) ∷ history) e =
      Qe.do_cycle engine_globals global_index now (record e { ports = ports }) >>= λ (result, e').
      cycles history e'

-- An engine as it is constructed; the entries of its arrays that are written before they are read
-- are arguments.
unfoldable pub new_engine :
    {D : Type 0} (l points_num : ℕ) (unset : Neighbor D) (states : List RequestState)
    (task : QeDcTask) (qe_name : ℕ)
    → QueryEngine (Option (List (Neighbor D))) (List Bool)
new_engine l points_num unset states task qe_name = record {
  qe_name = qe_name;
  query_id = 0;
  remaining_cycle = 0;
  query_state = SearchState.query_finish;
  retset = some (replicate (l + 1) unset);
  init_ids = replicate l 0;
  flags = replicate points_num false;
  init_dc_state = states;
  while_k = some 0;
  edge_table_id = 0;
  edge_read_task = task;
  dc_task_list = [];
  offset_edge = 0;
  offset_vec = 0;
}
