-- ===== src/Sim.antt =====
-- The main loop of bins/simulation.cc, over the one query engine and the one distance computer that
-- `num_qe` and `num_dc` ask for. `current_cycle` advances after every component, so that each sees
-- another cycle; the memory has a cycle in every second round.
pub mod Ending
pub mod Setup
pub mod Index
pub mod Start
pub mod Waiting
pub mod Stages
pub mod Runs
use near_mem_nsg.Base.{
  ℕ, zero, suc, ◌+◌, ◌%◌, Bool, true, false, ◌&&◌, Option, some, ◌==◌, if◌then◌else◌, ◌>>=◌, inc64,
}
use near_mem_nsg.Struct.{NsgTask}
use near_mem_nsg.TaskQueue.{Channel}
use near_mem_nsg.Component.{Activity, cycle}
use near_mem_nsg.Controller
use near_mem_nsg.Dc
use near_mem_nsg.Mapping.{int}
use near_mem_nsg.Qe
use near_mem_nsg.Ramulator
use near_mem_nsg.Ramulator.{MemoryBase, Wrapper}

-- The components, with the counters of each. The five channels are those of the engine: the
-- controller sends on its `tasks`, the distance computer receives from `distance` and sends on
-- `return_distance`, the memory receives from `mem` and sends on `mem_ret`.
pub record World (R F M : Type 0) : Type 0 where
  pub current_cycle : ℕ
  pub combined_cycle : ℕ
  pub controller : Controller.Controller
  pub engine : Qe.Engine R F
  pub computer : Dc.DistanceComputer
  pub memory : Wrapper M
  pub controller_activity : Activity
  pub engine_activity : Activity
  pub computer_activity : Activity
  pub memory_activity : Activity

-- The cycle of the controller, with its state as a pair.
abbrev controller_step :
    Controller.Controller × Channel NsgTask
    → Option (Bool × (Controller.Controller × Channel NsgTask))
controller_step s = Controller.do_cycle s >>= λ (result, c, tasks). some (result, (c, tasks))

module _ {R F M : Type 0} (cfg : Qe.Config R F) (index : Qe.Index R F) (units : Dc.Config)
    (mem : MemoryBase M) where
  abbrev next_cycle : World R F M → World R F M
  next_cycle w = record w { current_cycle = inc64 w.current_cycle }

  unfoldable pub controller_cycle : World R F M → Option (World R F M)
  controller_cycle w = do
    (result, a, s) ←
        cycle controller_step (w.controller_activity, (w.controller, w.engine.ports.tasks))
    let (c, tasks) = s
    some (record w {
      controller = c;
      engine = record w.engine { ports = record w.engine.ports { tasks = tasks } };
      controller_activity = a;
    })

  unfoldable pub engine_cycle : World R F M → Option (World R F M)
  engine_cycle w = do
    (result, a, e) ← cycle (Qe.do_cycle cfg index w.current_cycle) (w.engine_activity, w.engine)
    some (record w { engine = e; engine_activity = a })

  unfoldable pub computer_cycle : World R F M → Option (World R F M)
  computer_cycle w = do
    (result, a, s) ← cycle (Dc.do_cycle units) (
      w.computer_activity,
      record {
        dc = w.computer;
        distance_receiver = w.engine.ports.distance;
        return_distance_sender = w.engine.ports.return_distance;
      },
    )
    some (record w {
      computer = s.dc;
      computer_activity = a;
      engine = record w.engine {
        ports = record w.engine.ports {
          distance = s.distance_receiver;
          return_distance = s.return_distance_sender;
        };
      };
    })

  unfoldable pub memory_cycle : World R F M → Option (World R F M)
  memory_cycle w = do
    (result, a, s) ← cycle (Ramulator.do_cycle mem) (
      w.memory_activity,
      record {
        wrapper = w.memory;
        in_queue = w.engine.ports.mem;
        out_queue = w.engine.ports.mem_ret;
      },
    )
    some (record w {
      memory = s.wrapper;
      memory_activity = a;
      engine = record w.engine {
        ports = record w.engine.ports { mem = s.in_queue; mem_ret = s.out_queue };
      };
    })

  -- `if (combined_cycle % 2 == 0)`.
  unfoldable pub memory_turn : World R F M → Option (World R F M)
  unfolding memory_cycle
  memory_turn w =
      if w.combined_cycle % 2 == 0 then (memory_cycle w >>= λ w'. some (next_cycle w')) else some w

  -- The body of the loop up to its test.
  unfoldable pub round : World R F M → Option (World R F M)
  unfolding controller_cycle engine_cycle computer_cycle memory_turn
  round w = do
    combined_cycle ← int (w.combined_cycle + 1)
    w1 ← controller_cycle (record w { combined_cycle = combined_cycle })
    w2 ← engine_cycle (next_cycle w1)
    w3 ← computer_cycle (next_cycle w2)
    memory_turn (next_cycle w3)

  -- `all_end` of every component in `components`; the memory is not among them.
  unfoldable pub all_end : World R F M → Bool
  all_end w = Controller.all_end w.controller && (Qe.all_end w.engine.qe && Dc.all_end w.computer)

  -- At most so many rounds, and whether the loop has ended.
  unfoldable pub simulate : ℕ → World R F M → Option (Bool × World R F M)
  unfolding round all_end
  simulate zero w = some (false, w)
  simulate (suc n) w =
      round w >>= λ w'. elim (all_end w') [ true ↦ some (true, w') | false ↦ simulate n w' ]
