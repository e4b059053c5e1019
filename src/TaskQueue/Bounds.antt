-- ===== src/TaskQueue/Bounds.antt =====
-- Capacity: a channel never holds more than its senders allow, and a push faults only when full.
use near_mem_nsg.Base.{
  ◌≤◌, ◌<◌, ◌≡◌, refl, subst, ◌⊎◌, inl, inr, true, false, some, List, [], ◌∷◌, arith, length, All,
  length-append, u32_mod,
}
use near_mem_nsg.TaskQueue.Ends.{Channel, push, get, empty, pop}

abbrev pub entries {ℓ} : {A : Type ℓ} → Channel A → List A
entries c = c.task_queue.queue

-- The capacity is an `unsigned`, and the queue keeps within it.
pub record IsBounded {ℓ} {A : Type ℓ} (c : Channel A) : Type 0 where
  pub word : c.capacity < u32_mod
  pub within : length (entries c) ≤ c.capacity

module _ {ℓ} {A : Type ℓ} where
  pub push-IsBounded :
      (x : A) (c : Channel A) {d : Channel A} → IsBounded c → push x c ≡ some d → IsBounded d
  unfolding push
  push-IsBounded x c v e = ground (arith, length-append (entries c) (x ∷ []))

  pub pop-IsBounded :
      (c : Channel A) {x : A} {d : Channel A} → IsBounded c → pop c ≡ some (x, d) → IsBounded d
  unfolding pop
  pop-IsBounded c v e = ground arith

module _ {ℓ} {A : Type ℓ} where
  -- A receiver sees nothing, or an oldest entry that both `get` and `pop` yield.
  pub receiver_cases :
      (c : Channel A)
      → (empty c ≡ true)
        ⊎ ((x : A) × (d : Channel A) × (empty c ≡ false) × (get c ≡ some x) × (pop c ≡ some (x, d)))
  unfolding empty get pop
  receiver_cases c = entries_cases (entries c) refl
    where
      entries_cases :
          (xs : List A)
          → entries c ≡ xs
          → (empty c ≡ true)
            ⊎ ((x : A) × (d : Channel A) × (empty c ≡ false)
                × (get c ≡ some x)
                × (pop c ≡ some (x, d)))
      entries_cases [] e = inl (ground arith)
      entries_cases (x ∷ xs) e = inr (
        x,
        record c { task_queue = record { queue = xs } },
        ground arith,
        ground arith,
        ground arith,
      )

  -- What holds of all entries holds of the one that is popped.
  pub pop-All {κ} :
      (P : A → Type κ) (c : Channel A) (x : A) (d : Channel A)
      → pop c ≡ some (x, d)
      → All P (entries c)
      → P x
  unfolding pop
  pop-All P c x d taken all = from_entries (entries c) refl all
    where
      from_entries : (xs : List A) → entries c ≡ xs → All P xs → P x
      from_entries [] e all = absurd (ground arith)
      from_entries (y ∷ ys) e (here, rest) = subst P (ground arith) here
