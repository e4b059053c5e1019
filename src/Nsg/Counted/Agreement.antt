-- ===== src/Nsg/Counted/Agreement.antt =====
-- Counting the comparisons changes nothing else.
use near_mem_nsg.Base.{
  ℕ, zero, suc, ◌+◌, ◌/◌, ◌≡◌, refl, inl, inr, Bool, true, false, Option, none, some, List, arith,
  Bool-cases, Option-cases, get_elem?, inc32,
}
use near_mem_nsg.Nsg.Pool.{
  Neighbor, write, place, last_index, bisect, look_back, insert_between, insert_after,
  insert_from_end, insert_into_pool,
}
use near_mem_nsg.Nsg.Counted.{
  Counted, bisect_counted, look_back_counted, between_counted, after_counted, from_end_counted,
  insert_with_compare_count,
}

-- The position and the pool alone.
abbrev pub forget : {D : Type 0} → Option (Counted D) → Option (ℕ × List (Neighbor D))
forget none = none
forget (some c) = some (c.position, c.pool)

abbrev forget2 : Option (ℕ × ℕ × ℕ) → Option (ℕ × ℕ)
forget2 none = none
forget2 (some (a, b, c)) = some (a, b)

abbrev forget3 : Option (Bool × ℕ × ℕ) → Option (Bool × ℕ)
forget3 none = none
forget3 (some (a, b, c)) = some (a, b)

module _ {D : Type 0} (lt : D → D → Bool) where
  bisect-counted :
      (n : ℕ) (addr : List (Neighbor D)) (nn : Neighbor D) (left right count : ℕ)
      → forget2 (bisect_counted lt n addr nn left right count) ≡ bisect lt n addr nn left right
  unfolding bisect bisect_counted
  bisect-counted zero addr nn left right count = refl
  bisect-counted (suc n) addr nn left right count =
      elim (Option-cases (get_elem? addr ((left + right) / 2))) [
        | inl fault ↦ ground arith
        | inr (e, g) ↦ ground (
          arith,
          bisect-counted n addr nn left ((left + right) / 2) (inc32 count),
          bisect-counted n addr nn ((left + right) / 2) right (inc32 count),
        )
      ]

  look_back-counted :
      (addr : List (Neighbor D)) (nn : Neighbor D) (left count : ℕ)
      → forget3 (look_back_counted lt addr nn left count) ≡ look_back lt addr nn left
  unfolding look_back look_back_counted
  look_back-counted addr nn zero count = refl
  look_back-counted addr nn (suc left) count = elim (Option-cases (get_elem? addr (suc left))) [
    | inl fault ↦ ground arith
    | inr (e, g) ↦ ground (arith, look_back-counted addr nn left (inc32 count))
  ]

  between-counted :
      (addr : List (Neighbor D)) (k : ℕ) (nn : Neighbor D) (left right count : ℕ)
      → forget (between_counted lt addr k nn left right count)
        ≡ insert_between lt addr k nn left right
  unfolding between_counted insert_between
  between-counted addr k nn left right count = elim (Option-cases (get_elem? addr left)) [
    | inl fault ↦ ground arith
    | inr (l, g) ↦ elim (Option-cases (get_elem? addr right)) [
      | inl fault ↦ ground arith
      | inr (r, g') ↦ elim (Option-cases (place lt addr k nn right)) [
        | inl fault ↦ ground arith
        | inr (p, g'') ↦ ground arith
      ]
    ]
  ]

  after-counted :
      (addr : List (Neighbor D)) (k : ℕ) (nn : Neighbor D) (right : ℕ) (b : Bool × ℕ × ℕ)
      → forget (after_counted lt addr k nn right b) ≡ insert_after lt addr k nn right (b.0, b.1)
  unfolding after_counted insert_after
  after-counted addr k nn right (true, left, count) = refl
  after-counted addr k nn right (false, left, count) = between-counted addr k nn left right count

  from_end-counted :
      (addr : List (Neighbor D)) (k : ℕ) (nn : Neighbor D) (count right : ℕ) (e : Neighbor D)
      → forget (from_end_counted lt addr k nn count right e) ≡ insert_from_end lt addr k nn right e
  unfolding from_end_counted insert_from_end
  from_end-counted addr k nn count right e = elim (Bool-cases (lt e.distance nn.distance)) [
    | inl last ↦ elim (Option-cases (write addr k nn)) [
      | inl fault ↦ ground arith
      | inr (p, g) ↦ ground arith
    ]
    | inr inside ↦ elim (Option-cases (bisect_counted lt k addr nn 0 right count)) [
      | inl fault ↦ ground (arith, bisect-counted k addr nn 0 right count)
      | inr ((l, r, c), g) ↦ elim (Option-cases (look_back_counted lt addr nn l c)) [
        | inl fault ↦
            ground (arith, bisect-counted k addr nn 0 right count, look_back-counted addr nn l c)
        | inr ((b, l', c'), g') ↦ ground (
          arith,
          bisect-counted k addr nn 0 right count,
          look_back-counted addr nn l c,
          after-counted addr k nn r (b, l', c'),
        )
      ]
    ]
  ]

  -- `InsertIntoPool_withCompareCount` returns the position that `InsertIntoPool` returns and leaves the
  -- pool that it leaves, and faults where it faults, whatever the counter was.
  pub insert_counted :
      (addr : List (Neighbor D)) (k : ℕ) (nn : Neighbor D) (count : ℕ)
      → forget (insert_with_compare_count lt addr k nn count) ≡ insert_into_pool lt addr k nn
  unfolding insert_with_compare_count insert_into_pool
  insert_counted addr k nn count = elim (Option-cases (get_elem? addr 0)) [
    | inl fault ↦ ground arith
    | inr (first, g) ↦ elim (Bool-cases (lt nn.distance first.distance)) [
      | inl front ↦ elim (Option-cases (place lt addr k nn 0)) [
        | inl fault ↦ ground arith
        | inr (p, h) ↦ ground arith
      ]
      | inr inside ↦ elim (Option-cases (last_index k)) [
        | inl fault ↦ ground arith
        | inr (right, h) ↦ elim (Option-cases (get_elem? addr right)) [
          | inl fault ↦ ground arith
          | inr (e, h') ↦ ground (arith, from_end-counted addr k nn count right e)
        ]
      ]
    ]
  ]
