-- ===== src/Nsg/Counted.antt =====
-- `InsertIntoPool_withCompareCount` of deps/nsg/include/efanna2e/neighbor.h: the insertion that also
-- counts, in an `unsigned`, the comparisons that the accelerator would make.
pub mod Agreement
pub mod Bounds
use near_mem_nsg.Base.{
  ℕ, zero, suc, ◌+◌, ◌-◌, ◌/◌, Bool, true, false, ◌||◌, Option, none, some, List, ltb, ◌==◌,
  if◌then◌else◌, ◌>>=◌, get_elem?, inc32,
}
use near_mem_nsg.Nsg.Pool.{Neighbor, write, place, last_index}

-- What a counting function leaves: the position, the pool, and the counter.
pub record Counted (D : Type 0) : Type 0 where
  pub position : ℕ
  pub pool : List (Neighbor D)
  pub compare_count : ℕ

abbrev pub with_count : {D : Type 0} → ℕ → ℕ × List (Neighbor D) → Counted D
with_count count (r, pool) = record { position = r; pool = pool; compare_count = count }

module _ {D : Type 0} (lt : D → D → Bool) where
  -- `while(left<right-1)`, on fuel.
  unfoldable pub bisect_counted :
      ℕ → List (Neighbor D) → Neighbor D → ℕ → ℕ → ℕ → Option (ℕ × ℕ × ℕ)
  bisect_counted zero addr nn left right count = none
  bisect_counted (suc n) addr nn left right count =
      if ltb left (right - 1)
      then (get_elem? addr ((left + right) / 2) >>= λ e. elim (lt nn.distance e.distance) [
        | true ↦ bisect_counted n addr nn left ((left + right) / 2) (inc32 count)
        | false ↦ bisect_counted n addr nn ((left + right) / 2) right (inc32 count)
      ])
      else some (left, right, count)

  -- `while (left > 0)`.
  unfoldable pub look_back_counted : List (Neighbor D) → Neighbor D → ℕ → ℕ → Option (Bool × ℕ × ℕ)
  look_back_counted addr nn zero count = some (false, zero, count)
  look_back_counted addr nn (suc left) count =
      let rest = look_back_counted addr nn left (inc32 count) in
      get_elem? addr (suc left) >>= λ e.
      if lt e.distance nn.distance
      then some (false, suc left, inc32 count)
      else if e.id == nn.id
      then some (true, suc left, inc32 count)
      else rest

  unfoldable pub between_counted :
      List (Neighbor D) → ℕ → Neighbor D → ℕ → ℕ → ℕ → Option (Counted D)
  unfolding place
  between_counted addr k nn left right count = do
    l ← get_elem? addr left
    r ← get_elem? addr right
    if l.id == nn.id || r.id == nn.id
        then some (with_count count (k + 1, addr))
        else (place lt addr k nn right >>= λ p. some (with_count count p))

  unfoldable pub after_counted :
      List (Neighbor D) → ℕ → Neighbor D → ℕ → Bool × ℕ × ℕ → Option (Counted D)
  unfolding between_counted
  after_counted addr k nn right (true, left, count) = some (with_count count (k + 1, addr))
  after_counted addr k nn right (false, left, count) = between_counted addr k nn left right count

  unfoldable pub from_end_counted :
      List (Neighbor D) → ℕ → Neighbor D → ℕ → ℕ → Neighbor D → Option (Counted D)
  unfolding bisect_counted look_back_counted after_counted write
  from_end_counted addr k nn count right e =
      if lt e.distance nn.distance
      then (write addr k nn >>= λ pool. some (with_count (inc32 count) (k, pool)))
      else (bisect_counted k addr nn 0 right count >>= λ (left, right', count').
          look_back_counted addr nn left count' >>= after_counted addr k nn right')

  -- `InsertIntoPool_withCompareCount`.
  unfoldable pub insert_with_compare_count :
      List (Neighbor D) → ℕ → Neighbor D → ℕ → Option (Counted D)
  unfolding from_end_counted place
  insert_with_compare_count addr k nn count = get_elem? addr 0 >>= λ first.
      if lt nn.distance first.distance
      then (place lt addr k nn 0 >>= λ p. some (with_count (inc32 count) p))
      else (last_index k >>= λ right.
          get_elem? addr right >>= from_end_counted addr k nn count right)
