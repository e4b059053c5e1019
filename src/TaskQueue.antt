-- ===== src/TaskQueue.antt =====
-- src/task_queue.h: a FIFO queue that a sender of bounded capacity and a receiver share.
mod Queue
mod Ends
pub mod Bounds
pub mod Fifo
pub use Queue.{TaskQueue}
pub use Ends.{Channel}
unfoldable pub use Ends.{full, push, size, get, empty, pop, make_task_queue}
