-- ===== src/Qe/Examples.antt =====
-- Examples for src/qe.cc.
use near_mem_nsg.Base.{ℕ, ◌+◌, ◌≡◌, refl, ◌≢◌, Bool, true, Option, none, some, List, [], ◌∷◌, arith}
use near_mem_nsg.Struct.{
  SearchState, query_init, query_get_data, query_pending_edge, query_pending_distance, query_finish,
  RequestState, not_send, inflight, finished, read_finished, dc_finished, QeDcTask,
}
use near_mem_nsg.TaskQueue.{Channel, full, push}
use near_mem_nsg.Qe.State.{Ports, Stats, Trace, Index, Config, Engine}
use near_mem_nsg.Qe.Loop.{for_each}
use near_mem_nsg.Qe.Init
use near_mem_nsg.Qe.Edge
use near_mem_nsg.Qe.Vector.{vec_visit}
use near_mem_nsg.Qe.Distance
use near_mem_nsg.Qe.Cycle.{do_cycle, by_state}
use near_mem_nsg.Qe.Discipline.{AtMostOne, do_cycle-AtMostOne}
use near_mem_nsg.Qe.Transitions.{Evolves, do_cycle-Evolves}
use near_mem_nsg.Qe.Replies.{AwaitsTasks, do_cycle-AwaitsTasks}
use near_mem_nsg.Qe.Totality.{CanStart, do_cycle-total}
use near_mem_nsg.Qe.Steps.{StepIsComplete, step_complete}

-- An index with one step: node 7, with the target 8.
abbrev index : Index (List ℕ) Unit
index = record {
  node_id = λ r i. some (i + 100);
  new_search_init = λ ids r q. some r;
  new_search_get_data = λ r f q k t. record {
    next_k = some 1;
    retset = r;
    flags = f;
    edge_table_id = 7;
    target_ids = 8 ∷ [];
    compare_latency = 1 ∷ [];
  };
  edges = record { edge_size = λ _. 100; edge_addr = λ _. 0 };
}

abbrev config : Config (List ℕ) Unit
config = record {
  l = 1;
  layout = record { points_num = 10; dim = 2; global_sizeof = 4 };
  global_retset = [];
  global_init_ids = [];
  global_flags = tt;
}

abbrev channel : {A : Type 0} → Channel A
channel = record { task_queue = record { queue = [] }; capacity = 4 }

abbrev ports : Ports
ports = record {
  tasks = channel;
  distance = channel;
  return_distance = channel;
  mem = channel;
  mem_ret = channel;
}

abbrev stats : Stats
stats = record {
  stall_qe = 0;
  stall_dc = 0;
  stall_dc1 = 0;
  stall_mem = 0;
  stall_mem1 = 0;
  stall_mem2 = 0;
  stall_mem3 = 0;
  stall_mem4 = 0;
  stage1 = 0;
  stage2 = 0;
  stage3 = 0;
  stage4 = 0;
  stage5 = 0;
  stage7 = 0;
  stage1_qe0 = 0;
  stage2_qe0 = 0;
  stage3_qe0 = 0;
  stage4_qe0 = 0;
  stage5_qe0 = 0;
  stage7_qe0 = 0;
  mem_receive_delta = 0;
  mem_receive_count = 0;
  sub_mem_receive_delta = 0;
  sub_mem_receive_count = 0;
  unfold_num = 0;
  exe_time = 0;
}

abbrev trace : Trace
trace = record {
  first_return = 0;
  last_return = 0;
  is_first = true;
  sub_first_return = 0;
  sub_last_return = 0;
  sub_is_first = true;
  exe_time_start = 0;
  time_edge_start = 0;
  send_edge = 0;
  send_vec = 0;
  send_dc = 0;
  rcv_edge = 0;
  rcv_vec = 0;
  rcv_dc = 0;
  total_edge = 0;
  total_vec = 0;
  total_edge_time = 0;
  total_vec_time = 0;
  total_dc_time = 0;
  qe0_edge_time = 0;
  qe0_vec_time = 0;
  qe0_edge = 0;
  qe0_vec = 0;
}

-- A task with its only read returned.
abbrev task : QeDcTask
task = record {
  qe_name = 0;
  query_id = 5;
  node_id = 8;
  mem_read_state = record { mem_read_addr = 64; state = read_finished } ∷ [];
  remaining_compare_cycle = 0;
  state = dc_finished;
}

abbrev engine : SearchState → RequestState → Engine (List ℕ) Unit
engine state request = record {
  qe = record {
    qe_name = 0;
    query_id = 5;
    remaining_cycle = 0;
    query_state = state;
    retset = [];
    init_ids = [];
    flags = tt;
    init_dc_state = request ∷ [];
    while_k = some 0;
    edge_table_id = 7;
    edge_read_task = task;
    dc_task_list = task ∷ [];
    offset_edge = 0;
    offset_vec = 0;
  };
  ports = ports;
  trace = trace;
  stats = stats;
}

abbrev result : Option (Bool × Engine (List ℕ) Unit) → Engine (List ℕ) Unit
result none = engine query_finish not_send
result (some p) = p.1

-- An engine that sends a task, and what it leaves.
abbrev sending : Engine (List ℕ) Unit
sending = engine query_init not_send

abbrev sent : Engine (List ℕ) Unit
sent = result (do_cycle config index 3 sending)

sends : do_cycle config index 3 sending ≡ some (true, sent)
unfolding do_cycle by_state Init.query_init for_each Init.init_request full push
sends = refl

-- An engine that gets a distance back, and what it leaves.
abbrev answered : Engine (List ℕ) Unit
answered = record (engine query_init inflight) {
  ports = record ports {
    return_distance = record {
      task_queue = record { queue = record { qe_name = 0; query_id = 5; node_id = 100 } ∷ [] };
      capacity = 4;
    };
  };
}

abbrev told : Engine (List ℕ) Unit
told = result (do_cycle config index 3 answered)

-- Engines at the ends of two phases.
abbrev edges_back : Engine (List ℕ) Unit
edges_back = engine query_pending_edge finished

abbrev edges_done : Engine (List ℕ) Unit
edges_done = result (do_cycle config index 3 edges_back)

abbrev all_sorted : Engine (List ℕ) Unit
all_sorted = engine query_pending_distance finished

abbrev stepped : Engine (List ℕ) Unit
stepped = result (do_cycle config index 3 all_sorted)

ends_step :
    (do_cycle config index 3 all_sorted ≡ some (true, stepped))
    × (stepped.qe.query_state ≡ query_get_data)
unfolding do_cycle by_state Distance.query_pending_distance Distance.distance_scan for_each
    Distance.task_visit Distance.task_reads vec_visit
ends_step = (refl, refl)

do_cycle-AtMostOne_example : AtMostOne 0 5 ports sent.ports
do_cycle-AtMostOne_example = do_cycle-AtMostOne config index 3 sending true sent sends

do_cycle-Evolves_example : Evolves sending sent
do_cycle-Evolves_example = do_cycle-Evolves config index 3 sending true sent sends

do_cycle-AwaitsTasks_example : AwaitsTasks config index 3 all_sorted stepped
do_cycle-AwaitsTasks_example =
    do_cycle-AwaitsTasks config index 3 all_sorted true stepped ends_step.0 refl

step_complete_example : StepIsComplete config index 3 all_sorted stepped
step_complete_example =
    step_complete config index 3 all_sorted true stepped ends_step.0 refl ends_step.1

can_start : CanStart config index 3 sending
can_start = (λ i h. (i + 100, refl), ground arith)

not_searching : sending.qe.query_state ≢ query_get_data
not_searching = ground arith

do_cycle-total_example : do_cycle config index 3 sending ≢ none
do_cycle-total_example =
    do_cycle-total config index 3 sending (omega arith) (λ _. can_start) not_searching
