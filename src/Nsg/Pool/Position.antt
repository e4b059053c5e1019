-- ===== src/Nsg/Pool/Position.antt =====
-- The position that an insertion returns.
use near_mem_nsg.Base.{
  ℕ, zero, suc, ◌+◌, ◌-◌, ◌/◌, ◌≤◌, ◌≡◌, inl, inr, Bool, true, false, ◌||◌, some, List, arith, ltb,
  ◌==◌, Bool-cases, Option-cases, get_elem?,
}
use near_mem_nsg.Nsg.Pool.{
  Neighbor, memmove, write, place, last_index, bisect, look_back, insert_between, insert_after,
  insert_from_end, insert_into_pool,
}

module _ {D : Type 0} (lt : D → D → Bool) (addr : List (Neighbor D)) (k : ℕ) (nn : Neighbor D) where
  bisect_right :
      (fuel left right l r : ℕ)
      → left ≤ right
      → bisect lt fuel addr nn left right ≡ some (l, r)
      → r ≤ right
  unfolding bisect
  bisect_right zero left right l r o e = absurd (ground arith)
  bisect_right (suc fuel) left right l r o e = elim (Bool-cases (ltb left (right - 1))) [
    | inr stop ↦ ground arith
    | inl go ↦ elim (Option-cases (get_elem? addr ((left + right) / 2))) [
      | inl fault ↦ absurd (ground arith)
      | inr (m, g) ↦ elim (Bool-cases (lt nn.distance m.distance)) [
        | inl farther ↦
            let b = bisect_right fuel left ((left + right) / 2) l r (ground arith) (ground arith) in
            ground arith
        | inr nearer ↦
            bisect_right fuel ((left + right) / 2) right l r (ground arith) (ground arith)
      ]
    ]
  ]

  place_position :
      (i r : ℕ) (pool : List (Neighbor D)) → place lt addr k nn i ≡ some (r, pool) → r ≡ i
  unfolding place
  place_position i r pool e = elim (Option-cases (memmove (i + 1) i (k - i) addr)) [
    | inl fault ↦ absurd (ground arith)
    | inr (m, g) ↦ elim (Option-cases (write m i nn)) [
      | inl fault ↦ absurd (ground arith)
      | inr (w, g') ↦ ground arith
    ]
  ]

  after_position :
      (right r : ℕ) (b : Bool × ℕ) (pool : List (Neighbor D))
      → right ≤ k
      → insert_after lt addr k nn right b ≡ some (r, pool)
      → r ≤ k + 1
  unfolding insert_after insert_between
  after_position right r (true, left) pool h e = ground arith
  after_position right r (false, left) pool h e = elim (Option-cases (get_elem? addr left)) [
    | inl fault ↦ absurd (ground arith)
    | inr (a, g) ↦ elim (Option-cases (get_elem? addr right)) [
      | inl fault ↦ absurd (ground arith)
      | inr (b, g') ↦ elim (Bool-cases (a.id == nn.id || b.id == nn.id)) [
        | inl same ↦ ground arith
        | inr differs ↦ let p = place_position right r pool (ground arith) in omega arith
      ]
    ]
  ]

  from_end_position :
      (right r : ℕ) (e : Neighbor D) (pool : List (Neighbor D))
      → right ≤ k
      → insert_from_end lt addr k nn right e ≡ some (r, pool)
      → r ≤ k + 1
  unfolding insert_from_end
  from_end_position right r e pool h q = elim (Bool-cases (lt e.distance nn.distance)) [
    | inl farthest ↦ elim (Option-cases (write addr k nn)) [
      | inl fault ↦ absurd (ground arith)
      | inr (p, g) ↦ ground arith
    ]
    | inr within ↦ elim (Option-cases (bisect lt k addr nn 0 right)) [
      | inl fault ↦ absurd (ground arith)
      | inr ((l, r'), g) ↦ elim (Option-cases (look_back lt addr nn l)) [
        | inl fault ↦ absurd (ground arith)
        | inr (b, g') ↦
            let low = bisect_right k 0 right l r' (omega arith) g in
            after_position r' r b pool (omega arith) (ground arith)
      ]
    ]
  ]

  -- No insertion returns a position beyond `K + 1`.
  pub insert_position :
      (r : ℕ) (pool : List (Neighbor D))
      → insert_into_pool lt addr k nn ≡ some (r, pool)
      → r ≤ k + 1
  unfolding insert_into_pool
  insert_position r pool q = elim (Option-cases (get_elem? addr 0)) [
    | inl fault ↦ absurd (ground arith)
    | inr (first, g) ↦ elim (Bool-cases (lt nn.distance first.distance)) [
      | inl nearest ↦ let p = place_position 0 r pool (ground arith) in omega arith
      | inr other ↦ elim (Option-cases (last_index k)) [
        | inl fault ↦ absurd (ground arith)
        | inr (right, g') ↦ elim (Option-cases (get_elem? addr right)) [
          | inl fault ↦ absurd (ground arith)
          | inr (last, g'') ↦
              from_end_position right r last pool (last_below k right g') (ground arith)
        ]
      ]
    ]
  ]
    where
      last_below : (n m : ℕ) → last_index n ≡ some m → m ≤ n
      last_below zero m e = absurd (ground arith)
      last_below (suc n) m e = ground arith
