-- ===== src/TaskQueue/Ends.antt =====
-- `Sender`, `Receiver` and `make_task_queue` of src/task_queue.h. The queue behind the shared
-- pointer is a `Channel`: every copy of its sender and of its receiver works on that one queue,
-- and every copy of the sender carries its capacity. A failed `assert` is `none`.
use near_mem_nsg.Base.{ℕ, Bool, Option, none, some, [], leb, if◌then◌else◌}
use near_mem_nsg.TaskQueue.Queue
use near_mem_nsg.TaskQueue.Queue.{TaskQueue}

pub record Channel {ℓ} (A : Type ℓ) : Type ℓ where
  pub task_queue : TaskQueue A
  pub capacity : ℕ

module _ {ℓ} {A : Type ℓ} where
  -- `Sender::full`.
  unfoldable pub full : Channel A → Bool
  unfolding Queue.size
  full c = leb c.capacity (Queue.size c.task_queue)

  -- `Sender::push`.
  unfoldable pub push : A → Channel A → Option (Channel A)
  unfolding full Queue.push
  push x c = if full c then none else some (record c { task_queue = Queue.push x c.task_queue })

  -- `Sender::size` and `Receiver::size`.
  unfoldable pub size : Channel A → ℕ
  unfolding Queue.size
  size c = Queue.size c.task_queue

  -- `Receiver::get`.
  unfoldable pub get : Channel A → Option A
  unfolding Queue.get
  get c = Queue.get c.task_queue

  -- `Receiver::empty`.
  unfoldable pub empty : Channel A → Bool
  unfolding Queue.empty
  empty c = Queue.empty c.task_queue

  rejoin : Channel A → Option (A × TaskQueue A) → Option (A × Channel A)
  rejoin c none = none
  rejoin c (some (x, q)) = some (x, record c { task_queue = q })

  -- `Receiver::pop`.
  unfoldable pub pop : Channel A → Option (A × Channel A)
  unfolding Queue.pop rejoin
  pop c = rejoin c (Queue.pop c.task_queue)

unfoldable pub make_task_queue {ℓ} : (A : Type ℓ) → ℕ → Channel A
make_task_queue A capacity = record { task_queue = record { queue = [] }; capacity = capacity }
