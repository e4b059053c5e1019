-- ===== src/Checks/Reads.antt =====
-- Examples for `address_mapping` of src/qe.cc and for src/ramulator_wrapper.cc.
use mathlib.Core.List.{Perm}
use mathlib.Core.List.Perm
use near_mem_nsg.Base.{
  ℕ, ◌+◌, ◌*◌, ◌≡◌, refl, ap, subst, Bool, true, false, some, List, [], ◌∷◌, ◌++◌, arith, length,
}
use near_mem_nsg.Struct.{MemReadTask}
use near_mem_nsg.TaskQueue.{full, empty, get, pop}
use near_mem_nsg.Mapping.{Layout, EdgeTable, extent, address_mapping}
use near_mem_nsg.Mapping.Cover.{Covers, address_mapping-Covers}
use near_mem_nsg.Ramulator.{
  Request, MemoryBase, Wrapper, State, do_cycle, send_next, answer_next, tick, call_backs,
  call_back,
}
use near_mem_nsg.Ramulator.Balance.{IsFaithful, reads, do_cycle-reads}
use near_mem_nsg.Ramulator.Outgoing.{do_cycle-outgoing}

abbrev layout : Layout
layout = record { points_num = 1000; dim = 100; global_sizeof = 1 }

abbrev edges : EdgeTable
edges = record { edge_size = λ _. 200; edge_addr = λ id. 200 * id }

-- The vector of node 1 takes the bytes 100 to 199, on the lines from 64 and from 128 and 192.
mapping_runs : address_mapping layout edges 1 false [] 0 ≡ some (64 ∷ 128 ∷ 192 ∷ [], 3)
unfolding address_mapping
mapping_runs = refl

address_mapping-Covers_example :
    (lines : List ℕ) × (address_mapping layout edges 1 false (5 ∷ []) 7
      ≡ some (5 ∷ [] ++ lines, 7 + length lines))
    × Covers 100 100 lines
unfolding extent
address_mapping-Covers_example =
    address_mapping-Covers layout edges 1 false (5 ∷ []) 7 {size = 100} {start = 100} refl
      (omega arith) (omega arith) (omega arith) (omega arith)

-- A memory that takes every request, and calls one back in each cycle.
pub front : List Request → List Request × List Request
front [] = ([], [])
front (r ∷ rs) = (r ∷ [], rs)

abbrev pub memory : MemoryBase (List Request)
memory = record { send = λ r x. (true, r ∷ x); tick = front }

abbrev pub held : List Request → List Request
held x = x

front-perm : (x : List Request) → Perm x ((front x).0 ++ (front x).1)
unfolding front
front-perm [] = Perm.refl []
front-perm (r ∷ rs) = Perm.refl (r ∷ rs)

pub memory-IsFaithful : IsFaithful memory held
memory-IsFaithful = record {
  takes = λ r x y e. subst (Perm (r ∷ x)) (ap (λ p. p.1) e) (Perm.refl (r ∷ x));
  refuses = λ r x y e. cc (ap (λ p. p.0) e);
  ticks = front-perm;
}

abbrev read_task : MemReadTask
read_task = record { addr = 64; is_read = true; qe_name = 0; node_id = 3; is_edge_table = false }

abbrev idle_wrapper : Wrapper (List Request)
idle_wrapper = record {
  total_requests_read = 0;
  total_requests_write = 0;
  cycle_in_memory = 0;
  outgoing_reqs = 0;
  temp_receive_queue = [];
  mem = [];
}

abbrev one_read : State (List Request)
one_read = record {
  wrapper = idle_wrapper;
  in_queue = record { task_queue = record { queue = read_task ∷ [] }; capacity = 64 };
  out_queue = record { task_queue = record { queue = [] }; capacity = 64 };
}

abbrev called_back : State (List Request)
called_back = record {
  wrapper = record idle_wrapper {
    total_requests_read = 1;
    cycle_in_memory = 1;
    temp_receive_queue = 64 ∷ [];
  };
  in_queue = record { task_queue = record { queue = [] }; capacity = 64 };
  out_queue = record { task_queue = record { queue = [] }; capacity = 64 };
}

do_cycle-one_read : do_cycle memory one_read ≡ some (true, called_back)
unfolding do_cycle send_next answer_next tick call_backs call_back front pop empty full get
do_cycle-one_read = refl

do_cycle-reads_example : Perm (reads held one_read) (reads held called_back)
do_cycle-reads_example =
    do_cycle-reads memory held memory-IsFaithful one_read called_back do_cycle-one_read

do_cycle-outgoing_example :
    (busy : Bool) × (t : State (List Request)) × (do_cycle memory one_read ≡ some (busy, t))
    × (t.wrapper.outgoing_reqs ≡ length (held t.wrapper.mem))
do_cycle-outgoing_example =
    do_cycle-outgoing memory held memory-IsFaithful one_read (refl, omega arith)
