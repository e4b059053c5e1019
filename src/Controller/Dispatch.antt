-- ===== src/Controller/Dispatch.antt =====
-- The order in which src/controller.cc hands out the queries, whatever the order in which the
-- controller's cycles and the receivers' pops come.
use near_mem_nsg.Base.{
  ℕ, zero, suc, ◌+◌, ◌≤◌, ◌<◌, ◌≡◌, refl, ◌⊎◌, inl, inr, Bool, true, false, not, ◌&&◌, Option, some,
  List, [], ◌∷◌, ◌++◌, append_assoc, arith, ltb, Bool-cases, ◌>>=◌, length, u32_mod,
}
use near_mem_nsg.Struct.{NsgTask}
use near_mem_nsg.TaskQueue.{Channel, full, push, pop, make_task_queue}
use near_mem_nsg.TaskQueue.Bounds.{entries, IsBounded, push-IsBounded, pop-IsBounded}
use near_mem_nsg.TaskQueue.Fifo.{entries-push, entries-pop}
use near_mem_nsg.Controller.{Controller, all_end, do_cycle}

-- The controller, its task channel, and the tasks that the query engines have fetched so far.
pub record System : Type 0 where
  pub controller : Controller
  pub tasks : Channel NsgTask
  pub fetched : List NsgTask

pub data Step : System → System → Type 0 where
  dispatch :
      {s : System} {busy : Bool} {c : Controller} {t : Channel NsgTask}
      → do_cycle (s.controller, s.tasks) ≡ some (busy, c, t)
      → Step s (record s { controller = c; tasks = t })
  fetch :
      {s : System} {x : NsgTask} {t : Channel NsgTask}
      → pop s.tasks ≡ some (x, t)
      → Step s (record s { tasks = t; fetched = s.fetched ++ x ∷ [] })

pub data Reach (s : System) : System → Type 0 where
  here : Reach s s
  next : {t u : System} → Reach s t → Step t u → Reach s u

-- The tasks of the queries 0, 1, …, n - 1.
abbrev pub queries : ℕ → List NsgTask
queries zero = []
queries (suc n) = queries n ++ record { query_id = n } ∷ []

pub record InOrder (s : System) : Type 0 where
  pub order : s.fetched ++ entries s.tasks ≡ queries s.controller.current_query_id
  pub in_range : s.controller.current_query_id ≤ s.controller.query_num
  pub word : s.controller.query_num < u32_mod
  pub bounded : IsBounded s.tasks

-- The start of a simulation: a fresh channel, and no query sent.
unfoldable pub start : ℕ → ℕ → System
start query_num capacity = record {
  controller = record { query_num = query_num; current_query_id = 0 };
  tasks = make_task_queue NsgTask capacity;
  fetched = [];
}

pub start-InOrder : (n c : ℕ) → n < u32_mod → c < u32_mod → InOrder (start n c)
unfolding start make_task_queue
start-InOrder n c h k = record {
  order = refl;
  in_range = omega arith;
  word = h;
  bounded = omega arith;
}

-- What one cycle does, by whether there is a next query and room for it.
pub do_cycle_cases :
    (c : Controller) (t : Channel NsgTask)
    → c.query_num < u32_mod
    → (do_cycle (c, t) ≡ some (false, c, t))
      ⊎ ((t' : Channel NsgTask) × (push (record { query_id = c.current_query_id }) t ≡ some t')
          × (c.current_query_id < c.query_num)
          × (do_cycle (c, t)
              ≡ some (false, record c { current_query_id = c.current_query_id + 1 }, t')))
unfolding do_cycle push full
do_cycle_cases c t w = elim (Bool-cases (ltb c.current_query_id c.query_num && not (full t))) [
  | inl e ↦ inr (
    record t { task_queue = record { queue = entries t ++ task ∷ [] } },
    ground arith,
    ground arith,
    ground arith,
  )
  | inr e ↦ inl (ground arith)
]
  where
    task : NsgTask
    task = record { query_id = c.current_query_id }

Step-InOrder : {s t : System} → Step s t → InOrder s → InOrder t
Step-InOrder (dispatch {s = s} {c = c} {t = t} e) v =
    elim (do_cycle_cases s.controller s.tasks v.word) [
      | inl q ↦ ground arith
      | inr (t', p, h, q) ↦ record {
        order = ground (
          arith,
          entries-push (record { query_id = s.controller.current_query_id }) s.tasks p,
          append_assoc s.fetched (entries s.tasks)
              (record { query_id = s.controller.current_query_id } ∷ []),
        );
        in_range = ground arith;
        word = ground arith;
        bounded = ground (arith, push-IsBounded _ s.tasks v.bounded p);
      }
    ]
Step-InOrder (fetch {s = s} {x = x} {t = t} e) v = record {
  order = cc (v.order, entries-pop s.tasks e, append_assoc s.fetched (x ∷ []) (entries t));
  in_range = v.in_range;
  word = v.word;
  bounded = pop-IsBounded s.tasks v.bounded e;
}

Reach-InOrder : {s t : System} → InOrder s → Reach s t → InOrder t
Reach-InOrder v here = v
Reach-InOrder v (next r st) = Step-InOrder st (Reach-InOrder v r)

-- From a fresh start, however the controller's cycles and the engines' fetches interleave: the tasks
-- fetched so far, followed by those still queued, are the queries 0, 1, 2, … in order up to the next
-- one to be sent, none lost and none twice; no more than `query_num` queries are ever sent, and the
-- task channel stays within its capacity.
pub dispatch_in_order :
    (query_num capacity : ℕ) {s : System}
    → query_num < u32_mod
    → capacity < u32_mod
    → Reach (start query_num capacity) s
    → (s.fetched ++ entries s.tasks ≡ queries s.controller.current_query_id)
      × (s.controller.current_query_id ≤ s.controller.query_num)
      × (length (entries s.tasks) ≤ s.tasks.capacity)
dispatch_in_order n c h k r =
    let v = Reach-InOrder (start-InOrder n c h k) r in (v.order, v.in_range, v.bounded.within)

-- A cycle of the controller followed by a fetch.
pub round : System → Option System
round s = do
  (busy, c, t) ← do_cycle (s.controller, s.tasks)
  (x, t') ← pop t
  some (record { controller = c; tasks = t'; fetched = s.fetched ++ x ∷ [] })

pub rounds : ℕ → System → Option System
rounds zero s = some s
rounds (suc n) s = round s >>= rounds n

-- A system between two rounds, all of whose sent queries have been fetched.
record Drained (q n : ℕ) (s : System) : Type 0 where
  given : s.controller.query_num ≡ q
  total : q ≡ s.controller.current_query_id + n
  word : s.controller.query_num < u32_mod
  room : (0 < s.tasks.capacity) × (s.tasks.capacity < u32_mod)
  nothing : entries s.tasks ≡ []
  order : s.fetched ≡ queries s.controller.current_query_id

round-Drained :
    (q n : ℕ) (s : System) → Drained q (suc n) s → (t : System) × (round s ≡ some t) × Drained q n t
unfolding round do_cycle push pop full
round-Drained q n s v = (
  record {
    controller = record s.controller { current_query_id = s.controller.current_query_id + 1 };
    tasks = s.tasks;
    fetched = s.fetched ++ record { query_id = s.controller.current_query_id } ∷ [];
  },
  ground arith,
  ground arith,
)

rounds-Drained :
    (q n : ℕ) (s : System)
    → Drained q n s
    → (t : System) × (rounds n s ≡ some t) × (t.fetched ≡ queries q) × (all_end t.controller ≡ true)
unfolding rounds all_end
rounds-Drained q zero s v = (s, refl, ground arith, ground arith)
rounds-Drained q (suc n) s v =
    let (t, p, w) = round-Drained q n s v in
    let (u, r, f, e) = rounds-Drained q n t w in (u, rw p r, f, e)

-- With engines that fetch after each cycle of the controller, and room for at least one task, no step
-- faults, and `query_num` rounds hand over exactly the queries 0, …, query_num - 1 in order, after
-- which the controller reports its end.
pub dispatch_complete :
    (query_num capacity : ℕ)
    → query_num < u32_mod
    → 0 < capacity
    → capacity < u32_mod
    → (t : System) × (rounds query_num (start query_num capacity) ≡ some t)
      × (t.fetched ≡ queries query_num)
      × (all_end t.controller ≡ true)
unfolding start make_task_queue
dispatch_complete n c h p k = rounds-Drained n n (start n c) (ground arith)
