-- ===== src/Qe/State.antt =====
-- The state of a query engine: the members of `Query_Engine` in src/qe.h, the channels that it
-- works on, and the global statistics of bins/simulation.cc that its cycles count.
use near_mem_nsg.Base.{ℕ, Bool, Option, List}
use near_mem_nsg.Struct.{SearchState, RequestState, NsgTask, DistanceTask, MemReadTask, QeDcTask}
use near_mem_nsg.TaskQueue.{Channel}
use near_mem_nsg.Mapping.{Layout, EdgeTable}

-- The five channels of an engine. `mem` carries its reads, `mem_ret` what comes back.
pub record Ports : Type 0 where
  pub tasks : Channel NsgTask
  pub distance : Channel DistanceTask
  pub return_distance : Channel DistanceTask
  pub mem : Channel MemReadTask
  pub mem_ret : Channel MemReadTask

-- The global counters, 64 bits each.
pub record Stats : Type 0 where
  pub stall_qe : ℕ
  pub stall_dc : ℕ
  pub stall_dc1 : ℕ
  pub stall_mem : ℕ
  pub stall_mem1 : ℕ
  pub stall_mem2 : ℕ
  pub stall_mem3 : ℕ
  pub stall_mem4 : ℕ
  pub stage1 : ℕ
  pub stage2 : ℕ
  pub stage3 : ℕ
  pub stage4 : ℕ
  pub stage5 : ℕ
  pub stage7 : ℕ
  pub stage1_qe0 : ℕ
  pub stage2_qe0 : ℕ
  pub stage3_qe0 : ℕ
  pub stage4_qe0 : ℕ
  pub stage5_qe0 : ℕ
  pub stage7_qe0 : ℕ
  pub mem_receive_delta : ℕ
  pub mem_receive_count : ℕ
  pub sub_mem_receive_delta : ℕ
  pub sub_mem_receive_count : ℕ
  pub unfold_num : ℕ
  pub exe_time : ℕ

-- The members of an engine that only measure: `int` counters, and 64-bit cycle numbers and times.
pub record Trace : Type 0 where
  pub first_return : ℕ
  pub last_return : ℕ
  pub is_first : Bool
  pub sub_first_return : ℕ
  pub sub_last_return : ℕ
  pub sub_is_first : Bool
  pub exe_time_start : ℕ
  pub time_edge_start : ℕ
  pub send_edge : ℕ
  pub send_vec : ℕ
  pub send_dc : ℕ
  pub rcv_edge : ℕ
  pub rcv_vec : ℕ
  pub rcv_dc : ℕ
  pub total_edge : ℕ
  pub total_vec : ℕ
  pub total_edge_time : ℕ
  pub total_vec_time : ℕ
  pub total_dc_time : ℕ
  pub qe0_edge_time : ℕ
  pub qe0_vec_time : ℕ
  pub qe0_edge : ℕ
  pub qe0_vec : ℕ

-- What `NewSearchGetData` leaves: `next_k` is its result, `none` for -1, and the rest are the
-- arguments that it writes.
pub record SearchStep (R F : Type 0) : Type 0 where
  pub next_k : Option ℕ
  pub retset : R
  pub flags : F
  pub edge_table_id : ℕ
  pub target_ids : List ℕ
  pub compare_latency : List ℕ

-- The index as a query engine uses it, over its result sets `R` and its flags `F`: the id of an
-- entry of a result set, `NewSearchInit` and `NewSearchGetData` for the vector of a query, and
-- `GetSizeAndAddr`. An entry that is not there, and a `NewSearchInit` that faults, are `none`.
pub record Index (R F : Type 0) : Type 0 where
  pub node_id : R → ℕ → Option ℕ
  pub new_search_init : List ℕ → R → ℕ → Option R
  pub new_search_get_data : R → F → ℕ → Option ℕ → ℕ → SearchStep R F
  pub edges : EdgeTable

-- The globals that an engine reads: `L`, the layout of the data, and the initial result set, ids
-- and flags of a query.
pub record Config (R F : Type 0) : Type 0 where
  pub l : ℕ
  pub layout : Layout
  pub global_retset : R
  pub global_init_ids : List ℕ
  pub global_flags : F

-- The members that the control depends on. `while_k` is `none` for -1.
pub record QueryEngine (R F : Type 0) : Type 0 where
  pub qe_name : ℕ
  pub query_id : ℕ
  pub remaining_cycle : ℕ
  pub query_state : SearchState
  pub retset : R
  pub init_ids : List ℕ
  pub flags : F
  pub init_dc_state : List RequestState
  pub while_k : Option ℕ
  pub edge_table_id : ℕ
  pub edge_read_task : QeDcTask
  pub dc_task_list : List QeDcTask
  pub offset_edge : ℕ
  pub offset_vec : ℕ

-- An engine with all the state that its cycles change.
pub record Engine (R F : Type 0) : Type 0 where
  pub qe : QueryEngine R F
  pub ports : Ports
  pub trace : Trace
  pub stats : Stats
