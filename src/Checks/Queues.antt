-- ===== src/Checks/Queues.antt =====
-- Examples for src/task_queue.h, src/component.h and src/controller.cc.
use near_mem_nsg.Base.{
  ℕ, ◌+◌, ◌%◌, ◌≤◌, ◌≡◌, refl, ◌↔◌, Bool, true, false, Option, none, some, List, [], ◌∷◌, ◌++◌,
  arith, ◌==◌, length,
}
use near_mem_nsg.TaskQueue.{Channel, full, push, get, empty, pop, make_task_queue}
use near_mem_nsg.TaskQueue.Bounds.{entries, IsBounded}
use near_mem_nsg.TaskQueue.Fifo.{Op, send, receive, run, run-fifo, run-IsBounded, guards_exact}
use near_mem_nsg.Component.{idle_from_start, cycle, count, cycles, cycles_counted}
use near_mem_nsg.Controller.{all_end, do_cycle}
use near_mem_nsg.Controller.Dispatch.{
  System, Reach, Step, start, queries, rounds, dispatch_in_order, dispatch_complete,
}

abbrev two_places : Channel ℕ
two_places = record { task_queue = record { queue = 7 ∷ [] }; capacity = 2 }

abbrev after_calls : Channel ℕ
after_calls = record { task_queue = record { queue = 8 ∷ 9 ∷ [] }; capacity = 2 }

abbrev calls : List (Op ℕ)
calls = send 8 ∷ receive ∷ send 9 ∷ []

two_places-IsBounded : IsBounded two_places
two_places-IsBounded = omega arith

run-calls : run calls two_places ≡ some (7 ∷ [], after_calls)
unfolding run push pop
run-calls = refl

abbrev one_in : Channel ℕ
one_in = record { task_queue = record { queue = 1 ∷ [] }; capacity = 1 }

-- tests/task_queue_test.cc.
queue_test :
    (full (make_task_queue ℕ 1) ≡ false)
    × (empty (make_task_queue ℕ 1) ≡ true)
    × (push 1 (make_task_queue ℕ 1) ≡ some one_in)
    × (full one_in ≡ true)
    × (get one_in ≡ some 1)
unfolding make_task_queue full empty push get
queue_test = (refl, refl, refl, refl, refl)

run-fifo_example : 7 ∷ [] ++ entries after_calls ≡ 7 ∷ [] ++ (8 ∷ 9 ∷ [])
run-fifo_example = run-fifo calls two_places run-calls

run-IsBounded_example : IsBounded after_calls
run-IsBounded_example = run-IsBounded calls two_places two_places-IsBounded run-calls

guards_exact_example :
    ((push 1 after_calls ≡ none) ↔ (length (entries after_calls) ≡ 2))
    × ((full after_calls ≡ true) ↔ (push 1 after_calls ≡ none))
    × ((empty after_calls ≡ true) ↔ (pop after_calls ≡ none))
    × ((empty after_calls ≡ true) ↔ (get after_calls ≡ none))
guards_exact_example = guards_exact 1 after_calls (omega arith)

-- A component that is busy on even numbers.
abbrev blink : ℕ → Option (Bool × ℕ)
blink n = some (n % 2 == 0, n + 1)

cycles_counted_example : 2 + 1 ≡ idle_from_start.busy + idle_from_start.idle + 3
unfolding cycles cycle count
cycles_counted_example =
    cycles_counted blink 3 idle_from_start (record { busy = 2; idle = 1 }) 0 3 (omega arith) refl

abbrev one_sent : System
one_sent = record {
  controller = record { query_num = 3; current_query_id = 1 };
  tasks = record { task_queue = record { queue = record { query_id = 0 } ∷ [] }; capacity = 4 };
  fetched = [];
}

Reach-one_sent : Reach (start 3 4) one_sent
unfolding start make_task_queue do_cycle full push
Reach-one_sent = Reach.next Reach.here (Step.dispatch {busy = false} refl)

dispatch_in_order_example :
    ([] ++ entries one_sent.tasks ≡ queries 1) × (1 ≤ 3) × (length (entries one_sent.tasks) ≤ 4)
dispatch_in_order_example = dispatch_in_order 3 4 (omega arith) (omega arith) Reach-one_sent

dispatch_complete_example :
    (t : System) × (rounds 3 (start 3 4) ≡ some t)
    × (t.fetched ≡ queries 3)
    × (all_end t.controller ≡ true)
dispatch_complete_example = dispatch_complete 3 4 (omega arith) (omega arith) (omega arith)
