-- ===== src/Dc.antt =====
-- src/dc.h and src/dc.cc: a distance computer takes one task at a time and runs each dimension of
-- it through a subtraction, a multiplication and the final additions, on `num_compute_unit` units
-- of each of the first two kinds. Log output is left out.
pub mod Task
pub mod Units
pub mod Work
pub mod Latency
use near_mem_nsg.Base.{
  ℕ, Bool, true, false, not, Option, some, List, [], ◌∷◌, map, ltb, ◌==◌, if◌then◌else◌, ◌>>=◌,
  replicate, inc32, dec32,
}
use near_mem_nsg.Struct.{
  DistanceTask, DcTaskState, DcUnitState, minus_pending, multi_pending, plus_pending,
  finished_pending,
}
use near_mem_nsg.TaskQueue.{Channel, full, push, empty, pop}

-- The globals of bins/simulation.cc that a distance computer reads.
pub record Config : Type 0 where
  pub num_compute_unit : ℕ
  pub latency_compute_unit : ℕ

pub record DistanceComputer : Type 0 where
  pub dc_name : ℕ
  pub query_id : ℕ
  pub occupy_qe_name : ℕ
  pub node_id : ℕ
  pub dc_work_finished : Bool
  pub dc_task_state : List DcTaskState

unfoldable pub working : DistanceComputer → Bool
working d = not d.dc_work_finished

unfoldable pub all_end : DistanceComputer → Bool
unfolding working
all_end d = not (working d)

-- The local variables of the loop over `dc_task_state`.
pub record Counters : Type 0 where
  pub counter_minus : ℕ
  pub counter_multi : ℕ
  pub all_computation_finished : Bool

-- `remaining_cycle--`, and the move to the next state when it reaches 0.
pub advance : DcTaskState → DcTaskState → DcTaskState
advance u after =
    let left = dec32 u.remaining_cycle in
    if left == 0 then after else record u { remaining_cycle = left }

-- The body of the loop, by the state of the unit.
visit_state : Config → Counters → DcTaskState → DcUnitState → Counters × DcTaskState
unfolding advance
visit_state cfg n u minus_pending =
    let seen = inc32 n.counter_minus in
    (
      record n { counter_minus = seen; all_computation_finished = false },
      if ltb cfg.num_compute_unit seen
          then u
          else advance u
              (record { state = multi_pending; remaining_cycle = cfg.latency_compute_unit }),
    )
visit_state cfg n u multi_pending =
    let seen = inc32 n.counter_multi in
    (
      record n { counter_multi = seen; all_computation_finished = false },
      if ltb cfg.num_compute_unit seen
          then u
          else advance u (record { state = plus_pending; remaining_cycle = 4 }),
    )
visit_state cfg n u plus_pending = (
  record n { all_computation_finished = false },
  advance u (record { state = finished_pending; remaining_cycle = 0 }),
)
visit_state cfg n u finished_pending = (n, u)

unfoldable pub visit : Config → Counters → DcTaskState → Counters × DcTaskState
unfolding visit_state
visit cfg n u = visit_state cfg n u u.state

-- The loop over the units.
unfoldable pub scan : Config → Counters → List DcTaskState → Counters × List DcTaskState
scan cfg n [] = (n, [])
scan cfg n (u ∷ us) = let (n', u') = visit cfg n u in let (m, us') = scan cfg n' us in (m, u' ∷ us')

abbrev pub no_counts : Counters
no_counts = record { counter_minus = 0; counter_multi = 0; all_computation_finished = true }

-- A unit when a task is accepted.
pub reset : Config → DcTaskState → DcTaskState
reset cfg u = record { state = minus_pending; remaining_cycle = cfg.latency_compute_unit }

-- A distance computer with the channel that it receives from and the one that it answers on.
pub record State : Type 0 where
  pub dc : DistanceComputer
  pub distance_receiver : Channel DistanceTask
  pub return_distance_sender : Channel DistanceTask

-- The task being computed.
abbrev pub current : DistanceComputer → DistanceTask
current d = record { qe_name = d.occupy_qe_name; query_id = d.query_id; node_id = d.node_id }

-- All units are done: answer if there is room.
unfoldable pub deliver : State → Option (Bool × State)
deliver s =
    if full s.return_distance_sender
    then some (false, s)
    else (push (current s.dc) s.return_distance_sender >>= λ tx. some (
      true,
      record s {
        dc = record s.dc { dc_task_state = []; dc_work_finished = true };
        return_distance_sender = tx;
      },
    ))

-- The branch of `do_cycle` for a busy computer.
pub compute : Config → State → Option (Bool × State)
compute cfg s =
    let (n, units) = scan cfg no_counts s.dc.dc_task_state in
    let s' = record s { dc = record s.dc { dc_task_state = units } } in
    if n.all_computation_finished then deliver s' else some (true, s')

take_task : Config → State → DistanceTask × Channel DistanceTask → Option (Bool × State)
unfolding reset
take_task cfg s (task, rx) = some (
  true,
  record s {
    dc = record s.dc {
      occupy_qe_name = task.qe_name;
      query_id = task.query_id;
      node_id = task.node_id;
      dc_work_finished = false;
      dc_task_state = map (reset cfg) s.dc.dc_task_state;
    };
    distance_receiver = rx;
  },
)

-- The branch of `do_cycle` for an idle computer.
unfoldable pub accept : Config → State → Option (Bool × State)
unfolding take_task
accept cfg s =
    if empty s.distance_receiver
    then some (false, s)
    else (pop s.distance_receiver >>= take_task cfg s)

unfoldable pub do_cycle : Config → State → Option (Bool × State)
unfolding working compute accept
do_cycle cfg s = if working s.dc then compute cfg s else accept cfg s

-- A computer as constructed for vectors of dimension `dim`: the vector `dc_task_state` is
-- value-initialised, so every unit starts as MINUS_PENDING with no cycles left.
unfoldable pub construct : ℕ → ℕ → DistanceComputer
construct dc_name dim = record {
  dc_name = dc_name;
  query_id = 0;
  occupy_qe_name = 0;
  node_id = 0;
  dc_work_finished = true;
  dc_task_state = replicate dim (record { state = minus_pending; remaining_cycle = 0 });
}
