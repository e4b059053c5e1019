-- ===== src/Nsg/Pool.antt =====
-- deps/nsg/include/efanna2e/neighbor.h: the pool of the best neighbours of a search. Distances are
-- an argument `D` with its test `<`. The `int` indices are numbers, which keep below 2 ^ 31 where a
-- pool has fewer than 2 ^ 30 entries. An access out of bounds is `none`.
pub mod Shift
pub mod Outcome
pub mod Sorted
pub mod Position
use near_mem_nsg.Base.{
  ℕ, zero, suc, ◌+◌, ◌-◌, ◌/◌, Bool, true, false, ◌&&◌, ◌||◌, Option, none, some, List, ◌++◌, ltb,
  leb, ◌==◌, if◌then◌else◌, ◌>>=◌, length, get_elem?, set, take, drop,
}

pub record Neighbor (D : Type 0) : Type 0 where
  pub id : ℕ
  pub distance : D
  pub flag : Bool

-- `memmove` of `n` entries from `s` to `d`.
unfoldable pub memmove {ℓ} : {A : Type ℓ} → ℕ → ℕ → ℕ → List A → Option (List A)
memmove d s n xs =
    if leb (d + n) (length xs) && leb (s + n) (length xs)
    then some (take d xs ++ (take n (drop s xs) ++ drop (d + n) xs))
    else none

-- A write to an entry.
unfoldable pub write {ℓ} : {A : Type ℓ} → List A → ℕ → A → Option (List A)
write xs i x = if ltb i (length xs) then some (set xs i x) else none

-- `K - 1` as an index.
abbrev pub last_index : ℕ → Option ℕ
last_index zero = none
last_index (suc k) = some k

module _ {D : Type 0} (lt : D → D → Bool) where
  -- The last lines of both functions: the entries from `i` on move up by one, and `i` is written.
  unfoldable pub place : List (Neighbor D) → ℕ → Neighbor D → ℕ → Option (ℕ × List (Neighbor D))
  unfolding memmove write
  place addr k nn i = do
    moved ← memmove (i + 1) i (k - i) addr
    pool ← write moved i nn
    some (i, pool)

  -- `while(left<right-1)`, on fuel.
  unfoldable pub bisect : ℕ → List (Neighbor D) → Neighbor D → ℕ → ℕ → Option (ℕ × ℕ)
  bisect zero addr nn left right = none
  bisect (suc n) addr nn left right =
      if ltb left (right - 1)
      then (get_elem? addr ((left + right) / 2) >>= λ e. elim (lt nn.distance e.distance) [
        | true ↦ bisect n addr nn left ((left + right) / 2)
        | false ↦ bisect n addr nn ((left + right) / 2) right
      ])
      else some (left, right)

  -- `while (left > 0)`: whether an entry with the same id was met, and the `left` of a break.
  unfoldable pub look_back : List (Neighbor D) → Neighbor D → ℕ → Option (Bool × ℕ)
  look_back addr nn zero = some (false, zero)
  look_back addr nn (suc left) =
      let rest = look_back addr nn left in
      get_elem? addr (suc left) >>= λ e.
      if lt e.distance nn.distance
      then some (false, suc left)
      else if e.id == nn.id
      then some (true, suc left)
      else rest

  -- `if(addr[left].id == nn.id||addr[right].id==nn.id)return K+1;` and what follows it.
  unfoldable pub insert_between :
      List (Neighbor D) → ℕ → Neighbor D → ℕ → ℕ → Option (ℕ × List (Neighbor D))
  unfolding place
  insert_between addr k nn left right = do
    l ← get_elem? addr left
    r ← get_elem? addr right
    if l.id == nn.id || r.id == nn.id then some (k + 1, addr) else place addr k nn right

  -- After the loop over `left`: a duplicate returns.
  unfoldable pub insert_after :
      List (Neighbor D) → ℕ → Neighbor D → ℕ → Bool × ℕ → Option (ℕ × List (Neighbor D))
  unfolding insert_between
  insert_after addr k nn right (true, left) = some (k + 1, addr)
  insert_after addr k nn right (false, left) = insert_between addr k nn left right

  -- From the test at the end of the pool on.
  unfoldable pub insert_from_end :
      List (Neighbor D) → ℕ → Neighbor D → ℕ → Neighbor D → Option (ℕ × List (Neighbor D))
  unfolding bisect look_back insert_after write
  insert_from_end addr k nn right e =
      if lt e.distance nn.distance
      then (write addr k nn >>= λ pool. some (k, pool))
      else (bisect k addr nn 0 right >>= λ (left, right').
          look_back addr nn left >>= insert_after addr k nn right')

  -- `InsertIntoPool`: the position, `K + 1` for a duplicate, and the pool.
  unfoldable pub insert_into_pool :
      List (Neighbor D) → ℕ → Neighbor D → Option (ℕ × List (Neighbor D))
  unfolding insert_from_end place
  insert_into_pool addr k nn = get_elem? addr 0 >>= λ first.
      if lt nn.distance first.distance
      then place addr k nn 0
      else (last_index k >>= λ right. get_elem? addr right >>= insert_from_end addr k nn right)
