-- ===== src/TaskQueue/Queue.antt =====
-- `TaskQueue` of src/task_queue.h, over `std::queue`. `front` and `pop` of an empty queue, which
-- the standard leaves undefined, are `none`. `clear` calls a member that `std::queue` lacks, and
-- is never instantiated.
use near_mem_nsg.Base.{
  ℕ, ◌%◌, Bool, true, false, Option, none, some, List, [], ◌∷◌, ◌++◌, length, u32_mod,
}

-- Oldest entry first.
pub record TaskQueue {ℓ} (A : Type ℓ) : Type ℓ where
  pub queue : List A

module _ {ℓ} {A : Type ℓ} where
  -- The length, cut to 32 bits.
  unfoldable pub size : TaskQueue A → ℕ
  size q = length q.queue % u32_mod

  pop_list : List A → Option (A × TaskQueue A)
  pop_list [] = none
  pop_list (x ∷ xs) = some (x, record { queue = xs })

  front : List A → Option A
  front [] = none
  front (x ∷ xs) = some x

  is_nil : List A → Bool
  is_nil [] = true
  is_nil (x ∷ xs) = false

  unfoldable pub pop : TaskQueue A → Option (A × TaskQueue A)
  unfolding pop_list
  pop q = pop_list q.queue

  unfoldable pub get : TaskQueue A → Option A
  unfolding front
  get q = front q.queue

  unfoldable pub empty : TaskQueue A → Bool
  unfolding is_nil
  empty q = is_nil q.queue

  unfoldable pub push : A → TaskQueue A → TaskQueue A
  push x q = record { queue = q.queue ++ x ∷ [] }
