-- ===== src/Controller.antt =====
-- src/controller.h and src/controller.cc: the controller sends the queries to the query engines,
-- in order. The members that no method reads (the index, the two memory channels, the query
-- vectors) are left out.
pub mod Dispatch
use near_mem_nsg.Base.{ℕ, Bool, false, not, ◌&&◌, Option, some, ltb, if◌then◌else◌, ◌>>=◌, inc32}
use near_mem_nsg.Struct.{NsgTask}
use near_mem_nsg.TaskQueue.{Channel, full, push}

pub record Controller : Type 0 where
  pub query_num : ℕ
  pub current_query_id : ℕ

unfoldable pub have_next_task : Controller → Bool
have_next_task c = ltb c.current_query_id c.query_num

unfoldable pub all_end : Controller → Bool
unfolding have_next_task
all_end c = not (have_next_task c)

pub get_query_node : ℕ → ℕ
get_query_node query_id = query_id

-- `if (!task_sender.full()) { … }`.
send_next : Controller → Channel NsgTask → Option (Controller × Channel NsgTask)
unfolding get_query_node
send_next c tasks = do
  tasks' ← push (record { query_id = get_query_node c.current_query_id }) tasks
  some (record c { current_query_id = inc32 c.current_query_id }, tasks')

-- `do_cycle`: the flag `busy` that it returns is never set.
unfoldable pub do_cycle :
    Controller × Channel NsgTask → Option (Bool × Controller × Channel NsgTask)
unfolding have_next_task send_next
do_cycle (c, tasks) =
    if have_next_task c && not (full tasks)
    then (send_next c tasks >>= λ (c', tasks'). some (false, c', tasks'))
    else some (false, c, tasks)
