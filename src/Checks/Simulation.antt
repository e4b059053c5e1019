-- ===== src/Checks/Simulation.antt =====
-- Examples for the main loop of bins/simulation.cc.
use near_mem_nsg.Base.{◌≡◌, refl, Bool, true, false, Option, none, some, [], ◌∷◌}
use near_mem_nsg.Struct.{SearchState, NsgTask, QeDcTask, read_not_send}
use near_mem_nsg.TaskQueue.{Channel, full, empty}
use near_mem_nsg.Component.{idle_from_start, cycle}
use near_mem_nsg.Controller
use near_mem_nsg.Dc
use near_mem_nsg.Ramulator.{MemoryBase, Request}
use near_mem_nsg.Ramulator
use near_mem_nsg.Qe
use near_mem_nsg.Mapping.{int}
use near_mem_nsg.Sim.{World, simulate}
use near_mem_nsg.Sim.Ending.{simulate_drops}

-- An index on which every search is at its end, and a memory that takes no request.
abbrev index : Qe.Index Unit Unit
index = record {
  node_id = λ r i. some 0;
  new_search_init = λ ids r q. some r;
  new_search_get_data = λ r f q k t. record {
    next_k = none;
    retset = r;
    flags = f;
    edge_table_id = 0;
    target_ids = [];
    compare_latency = [];
  };
  edges = record { edge_size = λ _. 0; edge_addr = λ _. 0 };
}

abbrev config : Qe.Config Unit Unit
config = record {
  l = 1;
  layout = record { points_num = 10; dim = 2; global_sizeof = 4 };
  global_retset = tt;
  global_init_ids = [];
  global_flags = tt;
}

abbrev pub units : Dc.Config
units = record { num_compute_unit = 2; latency_compute_unit = 1 }

abbrev memory : MemoryBase Unit
memory = record { send = λ r m. (false, m); tick = λ m. ([], m) }

abbrev pub no_entries : {A : Type 0} → Channel A
no_entries = record { task_queue = record { queue = [] }; capacity = 4 }

-- Two queries wait for the engine.
abbrev two_queries : Channel NsgTask
two_queries = record {
  task_queue = record { queue = record { query_id = 6 } ∷ record { query_id = 7 } ∷ [] };
  capacity = 4;
}

abbrev pub no_task : QeDcTask
no_task = record {
  qe_name = 0;
  query_id = 0;
  node_id = 0;
  mem_read_state = [];
  remaining_compare_cycle = 0;
  state = read_not_send;
}

abbrev ports : Qe.Ports
ports = record {
  tasks = two_queries;
  distance = no_entries;
  return_distance = no_entries;
  mem = no_entries;
  mem_ret = no_entries;
}

abbrev pub stats : Qe.Stats
stats = record {
  stall_qe = 0;
  stall_dc = 0;
  stall_dc1 = 0;
  stall_mem = 0;
  stall_mem1 = 0;
  stall_mem2 = 0;
  stall_mem3 = 0;
  stall_mem4 = 0;
  stage1 = 0;
  stage2 = 0;
  stage3 = 0;
  stage4 = 0;
  stage5 = 0;
  stage7 = 0;
  stage1_qe0 = 0;
  stage2_qe0 = 0;
  stage3_qe0 = 0;
  stage4_qe0 = 0;
  stage5_qe0 = 0;
  stage7_qe0 = 0;
  mem_receive_delta = 0;
  mem_receive_count = 0;
  sub_mem_receive_delta = 0;
  sub_mem_receive_count = 0;
  unfold_num = 0;
  exe_time = 0;
}

abbrev pub trace : Qe.Trace
trace = record {
  first_return = 0;
  last_return = 0;
  is_first = true;
  sub_first_return = 0;
  sub_last_return = 0;
  sub_is_first = true;
  exe_time_start = 0;
  time_edge_start = 0;
  send_edge = 0;
  send_vec = 0;
  send_dc = 0;
  rcv_edge = 0;
  rcv_vec = 0;
  rcv_dc = 0;
  total_edge = 0;
  total_vec = 0;
  total_edge_time = 0;
  total_vec_time = 0;
  total_dc_time = 0;
  qe0_edge_time = 0;
  qe0_vec_time = 0;
  qe0_edge = 0;
  qe0_vec = 0;
}

-- The last search is at its end, and all eight queries are sent.
abbrev world : World Unit Unit Unit
world = record {
  current_cycle = 100;
  combined_cycle = 30;
  controller = record { query_num = 8; current_query_id = 8 };
  engine = record {
    qe = record {
      qe_name = 0;
      query_id = 5;
      remaining_cycle = 0;
      query_state = SearchState.query_get_data;
      retset = tt;
      init_ids = [];
      flags = tt;
      init_dc_state = [];
      while_k = some 0;
      edge_table_id = 0;
      edge_read_task = no_task;
      dc_task_list = [];
      offset_edge = 0;
      offset_vec = 0;
    };
    ports = ports;
    trace = trace;
    stats = stats;
  };
  computer = Dc.construct 0 2;
  memory = record {
    total_requests_read = 0;
    total_requests_write = 0;
    cycle_in_memory = 0;
    outgoing_reqs = 0;
    temp_receive_queue = [];
    mem = tt;
  };
  controller_activity = idle_from_start;
  engine_activity = idle_from_start;
  computer_activity = idle_from_start;
  memory_activity = idle_from_start;
}

abbrev last : Option (Bool × World Unit Unit Unit) → World Unit Unit Unit
last none = world
last (some p) = p.1

abbrev ended : World Unit Unit Unit
ended = last (simulate config index units memory 5 world)

world_sent : Controller.all_end world.controller ≡ true
unfolding Controller.all_end
world_sent = refl

world_idle : (world.computer.dc_work_finished ≡ true) × (empty world.engine.ports.distance ≡ true)
unfolding Dc.construct empty
world_idle = (refl, refl)

world_ends : simulate config index units memory 5 world ≡ some (true, ended)
unfolding simulate int cycle Controller.all_end Controller.do_cycle Qe.do_cycle Qe.by_state
    Qe.query_get_data Qe.all_end Dc.do_cycle Dc.all_end Dc.construct Ramulator.do_cycle
    Ramulator.send_next Ramulator.answer_next Ramulator.tick Ramulator.call_backs empty full
world_ends = refl

simulate_drops_example : (true ≡ true) × (ended.engine.ports.tasks ≡ two_queries)
simulate_drops_example =
    simulate_drops config index units memory 4 world ended true world_sent refl refl world_idle.0
      world_idle.1 world_ends
