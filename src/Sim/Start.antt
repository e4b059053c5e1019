-- ===== src/Sim/Start.antt =====
-- The components and the channels that `main` of bins/simulation.cc constructs before its loop.
use near_mem_nsg.Base.{ℕ, Bool, Option, List, []}
use near_mem_nsg.Struct.{RequestState, NsgTask, DistanceTask, MemReadTask, QeDcTask}
use near_mem_nsg.TaskQueue.{make_task_queue}
use near_mem_nsg.Component.{idle_from_start}
use near_mem_nsg.Dc
use near_mem_nsg.Nsg.Pool.{Neighbor}
use near_mem_nsg.Qe
use near_mem_nsg.Sim.{World}
use near_mem_nsg.Sim.Setup.{Globals}
use near_mem_nsg.Sim.Index.{new_engine}

-- The last argument of the controller.
abbrev pub sent_queries : ℕ
sent_queries = 1000

module _ {D M : Type 0} (l : ℕ) (unset : Neighbor D) (w : Globals D) where
  unfoldable pub start :
      List RequestState
      → QeDcTask
      → Qe.Trace
      → Qe.Stats
      → M
      → World (Option (List (Neighbor D))) (List Bool) M
  unfolding new_engine make_task_queue Dc.construct
  start states task trace stats memory = record {
    current_cycle = 0;
    combined_cycle = 0;
    controller = record { query_num = sent_queries; current_query_id = 0 };
    engine = record {
      qe = new_engine l w.base.num unset states task 0;
      ports = record {
        tasks = make_task_queue NsgTask 4;
        distance = make_task_queue DistanceTask 4;
        return_distance = make_task_queue DistanceTask 4;
        mem = make_task_queue MemReadTask 64;
        mem_ret = make_task_queue MemReadTask 64;
      };
      trace = trace;
      stats = stats;
    };
    computer = Dc.construct 0 w.base.dim;
    memory = record {
      total_requests_read = 0;
      total_requests_write = 0;
      cycle_in_memory = 0;
      outgoing_reqs = 0;
      temp_receive_queue = [];
      mem = memory;
    };
    controller_activity = idle_from_start;
    engine_activity = idle_from_start;
    computer_activity = idle_from_start;
    memory_activity = idle_from_start;
  }
