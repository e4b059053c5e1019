-- ===== src/Struct.antt =====
-- src/struct.h: the states of the components and the tasks that they send one another.
use near_mem_nsg.Base.{ℕ, Bool, List}

-- `enum SearchState`.
pub data SearchState : Type 0 where
  query_init query_init_finish query_get_data : SearchState
  query_pending_edge query_pending_distance query_finish : SearchState

-- `enum RequestState`.
pub data RequestState : Type 0 where
  not_send inflight finished : RequestState

-- `enum DC_unit_State`.
pub data DcUnitState : Type 0 where
  minus_pending multi_pending plus_pending finished_pending : DcUnitState

-- `enum WhileRequestState`.
pub data WhileRequestState : Type 0 where
  read_not_send read_inflight read_finished : WhileRequestState
  dc_inflight dc_finished sort_finished : WhileRequestState

pub record NsgTask : Type 0 where
  pub query_id : ℕ

pub record DistanceTask : Type 0 where
  pub qe_name : ℕ
  pub query_id : ℕ
  pub node_id : ℕ

pub record MemReadTask : Type 0 where
  pub addr : ℕ
  pub is_read : Bool
  pub qe_name : ℕ
  pub node_id : ℕ
  pub is_edge_table : Bool

pub record QeMemState : Type 0 where
  pub mem_read_addr : ℕ
  pub state : WhileRequestState

pub record QeDcTask : Type 0 where
  pub qe_name : ℕ
  pub query_id : ℕ
  pub node_id : ℕ
  pub mem_read_state : List QeMemState
  pub remaining_compare_cycle : ℕ
  pub state : WhileRequestState

pub record DcTaskState : Type 0 where
  pub state : DcUnitState
  pub remaining_cycle : ℕ
