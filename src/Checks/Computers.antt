-- ===== src/Checks/Computers.antt =====
-- Examples for src/dc.cc.
use near_mem_nsg.Base.{
  ℕ, suc, ◌+◌, ◌*◌, ◌≤◌, ◌<◌, min, ◌≡◌, refl, inr, true, false, some, List, [], ◌∷◌, ◌++◌, arith,
  replicate, All,
}
use near_mem_nsg.Struct.{DistanceTask, DcTaskState, minus_pending, multi_pending, plus_pending}
use near_mem_nsg.TaskQueue.{Channel, full, push, empty, pop}
use near_mem_nsg.TaskQueue.Bounds.{entries}
use near_mem_nsg.Dc.{Config, State, construct, do_cycle, scan, no_counts, visit, deliver}
use near_mem_nsg.Dc.Task.{works, run, pending}
use near_mem_nsg.Dc.Task.{answers_in_order}
use near_mem_nsg.Dc.Units.{UnitIsValid, waiting, served, scan-served}
use near_mem_nsg.Dc.Work.{cycles, answered_within}
use near_mem_nsg.Dc.Latency.{latency_exact, latency_lost}

abbrev config : Config
config = record { num_compute_unit = 2; latency_compute_unit = 1 }

abbrev task : DistanceTask
task = record { qe_name = 0; query_id = 5; node_id = 77 }

abbrev one_task : Channel DistanceTask
one_task = record { task_queue = record { queue = task ∷ [] }; capacity = 4 }

abbrev no_task : Channel DistanceTask
no_task = record { task_queue = record { queue = [] }; capacity = 4 }

-- Two dimensions, and a task to do.
abbrev fresh : State
fresh = record {
  dc = record {
    dc_name = 0;
    query_id = 0;
    occupy_qe_name = 0;
    node_id = 0;
    dc_work_finished = true;
    dc_task_state = replicate 2 (record { state = minus_pending; remaining_cycle = 0 });
  };
  distance_receiver = one_task;
  return_distance_sender = no_task;
}

-- A computer that has answered before.
abbrev used : State
used = record fresh { dc = record fresh.dc { dc_task_state = [] } }

abbrev answered_used : State
answered_used = record used {
  dc = record used.dc { query_id = 5; node_id = 77 };
  distance_receiver = no_task;
  return_distance_sender = one_task;
}

constructed : construct 0 2 ≡ fresh.dc
unfolding construct
constructed = refl

abbrev mixed_units : List DcTaskState
mixed_units =
    record { state = minus_pending; remaining_cycle = 1 }
    ∷ record { state = minus_pending; remaining_cycle = 1 }
    ∷ record { state = minus_pending; remaining_cycle = 1 }
    ∷ record { state = plus_pending; remaining_cycle = 4 }
    ∷ []

scan-mixed_units :
    (scan config no_counts mixed_units).1
    ≡ record { state = multi_pending; remaining_cycle = 1 }
      ∷ record { state = multi_pending; remaining_cycle = 1 }
      ∷ record { state = minus_pending; remaining_cycle = 1 }
      ∷ record { state = plus_pending; remaining_cycle = 3 }
      ∷ []
unfolding scan visit
scan-mixed_units = refl

run-used : run config (works ∷ works ∷ []) used ≡ some ([], answered_used)
unfolding run do_cycle deliver scan pop empty full push
run-used = refl

answers_in_order_example : [] ++ pending answered_used ≡ pending used ++ []
answers_in_order_example = answers_in_order config (works ∷ works ∷ []) used answered_used run-used

has_left : {u : DcTaskState} → 0 < u.remaining_cycle → u.remaining_cycle < 10 → UnitIsValid u
has_left h k = (inr h, omega arith)

mixed_units-valid : All UnitIsValid mixed_units
mixed_units-valid = (
  has_left (omega arith) (omega arith),
  (
    has_left (omega arith) (omega arith),
    (has_left (omega arith) (omega arith), (has_left (omega arith) (omega arith), tt)),
  ),
)

scan-served_example :
    (served config minus_pending mixed_units (scan config no_counts mixed_units).1
      ≡ min (waiting minus_pending mixed_units) 2)
    × (served config multi_pending mixed_units (scan config no_counts mixed_units).1
        ≡ min (waiting multi_pending mixed_units) 2)
    × (served config plus_pending mixed_units (scan config no_counts mixed_units).1
        ≡ waiting plus_pending mixed_units)
    × All UnitIsValid (scan config no_counts mixed_units).1
scan-served_example = scan-served config (omega arith) mixed_units mixed_units-valid (omega arith)

answered_within_example :
    (k : ℕ) × (t : State) × (k ≤ 2 * (2 * 1 + 4) + 2)
    × (cycles config k fresh ≡ some t)
    × (entries t.return_distance_sender ≡ [] ++ task ∷ [])
    × (t.dc.dc_work_finished ≡ true)
unfolding pop full
answered_within_example =
    answered_within config (omega arith) (omega arith) fresh {rx = no_task} refl refl refl

latency_exact_example :
    ((k : ℕ)
      → k ≤ 2 * 1 + 4
      → (t : State) × (cycles config (suc k) fresh ≡ some t)
        × (t.dc.dc_work_finished ≡ false)
        × (entries t.return_distance_sender ≡ []))
    × ((t : State) × (cycles config (suc (suc (2 * 1 + 4))) fresh ≡ some t)
        × (entries t.return_distance_sender ≡ [] ++ task ∷ [])
        × (t.dc.dc_task_state ≡ []))
unfolding pop full
latency_exact_example =
    latency_exact config (omega arith) (omega arith) (omega arith) fresh {rx = no_task} refl refl
      refl (omega arith) (omega arith)

latency_lost_example :
    (t : State) × (cycles config 2 used ≡ some t)
    × (entries t.return_distance_sender ≡ [] ++ task ∷ [])
    × (t.dc.dc_work_finished ≡ true)
    × (t.dc.dc_task_state ≡ [])
unfolding pop full
latency_lost_example =
    latency_lost config (omega arith) (omega arith) (omega arith) used {rx = no_task} refl refl refl
      refl
