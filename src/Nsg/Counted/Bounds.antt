-- ===== src/Nsg/Counted/Bounds.antt =====
-- How many comparisons an insertion counts.
use near_mem_nsg.Base.{
  ℕ, zero, suc, ◌+◌, ◌-◌, ◌/◌, ◌^◌, ◌≤◌, ◌<◌, ◌≡◌, refl, inl, inr, Bool, true, false, some, List,
  arith, ltb, ◌==◌, Bool-cases, Option-cases, get_elem?, u32_mod, inc32,
}
use near_mem_nsg.Nsg.Pool.{Neighbor, write, place}
use near_mem_nsg.Nsg.Counted.{
  Counted, bisect_counted, look_back_counted, between_counted, after_counted, from_end_counted,
  insert_with_compare_count,
}

module _ {D : Type 0} (lt : D → D → Bool) (addr : List (Neighbor D)) (k : ℕ) (nn : Neighbor D) where
  -- A range of at most `2 ^ n` entries is bisected in `n` rounds.
  bisect_rounds :
      (fuel n left right count l r c : ℕ)
      → count + n < u32_mod
      → left ≤ right
      → right - left ≤ 2 ^ n
      → bisect_counted lt fuel addr nn left right count ≡ some (l, r, c)
      → (c ≤ count + n) × (l ≤ right)
  unfolding bisect_counted
  bisect_rounds zero n left right count l r c w o h e = absurd (ground arith)
  bisect_rounds (suc fuel) zero left right count l r c w o h e =
      elim (Bool-cases (ltb left (right - 1))) [
        | inr stop ↦ ground arith
        | inl go ↦ absurd (ground arith)
      ]
  bisect_rounds (suc fuel) (suc n) left right count l r c w o h e =
      elim (Bool-cases (ltb left (right - 1))) [
        | inr stop ↦ ground arith
        | inl go ↦ elim (Option-cases (get_elem? addr ((left + right) / 2))) [
          | inl fault ↦ absurd (ground arith)
          | inr (m, g) ↦ elim (Bool-cases (lt nn.distance m.distance)) [
            | inl farther ↦
                let (a, b) =
                  bisect_rounds fuel n left ((left + right) / 2) (inc32 count) l r c (ground arith)
                    (ground arith) (ground arith) (ground arith) in
                ground arith
            | inr nearer ↦
                let (a, b) =
                  bisect_rounds fuel n ((left + right) / 2) right (inc32 count) l r c (ground arith)
                    (ground arith) (ground arith) (ground arith) in
                ground arith
          ]
        ]
      ]

  -- Looking back from `left` takes at most `left` rounds.
  look_back_rounds :
      (left count : ℕ) (b : Bool) (l c : ℕ)
      → count + left < u32_mod
      → look_back_counted lt addr nn left count ≡ some (b, l, c)
      → c ≤ count + left
  unfolding look_back_counted
  look_back_rounds zero count b l c w e = ground arith
  look_back_rounds (suc left) count b l c w e = elim (Option-cases (get_elem? addr (suc left))) [
    | inl fault ↦ absurd (ground arith)
    | inr (m, g) ↦ elim (Bool-cases (lt m.distance nn.distance)) [
      | inl nearer ↦ ground arith
      | inr other ↦ elim (Bool-cases (m.id == nn.id)) [
        | inl same ↦ ground arith
        | inr differs ↦
            let rest = look_back_rounds left (inc32 count) b l c (ground arith) (ground arith) in
            ground arith
      ]
    ]
  ]

  after_rounds :
      (right : ℕ) (b : Bool × ℕ × ℕ) (c : Counted D)
      → after_counted lt addr k nn right b ≡ some c
      → c.compare_count ≡ b.2
  unfolding after_counted between_counted
  after_rounds right (true, left, count) c e = ground arith
  after_rounds right (false, left, count) c e = elim (Option-cases (get_elem? addr left)) [
    | inl fault ↦ absurd (ground arith)
    | inr (l, g) ↦ elim (Option-cases (get_elem? addr right)) [
      | inl fault ↦ absurd (ground arith)
      | inr (r, g') ↦ elim (Option-cases (place lt addr k nn right)) [
        | inl fault ↦ ground arith
        | inr (p, g'') ↦ ground arith
      ]
    ]
  ]

  from_end_rounds :
      (n count right : ℕ) (e : Neighbor D) (c : Counted D)
      → count + n + right + 1 < u32_mod
      → right ≤ 2 ^ n
      → from_end_counted lt addr k nn count right e ≡ some c
      → c.compare_count ≤ count + n + right + 1
  unfolding from_end_counted
  from_end_rounds n count right e c w h q = elim (Bool-cases (lt e.distance nn.distance)) [
    | inl farthest ↦ elim (Option-cases (write addr k nn)) [
      | inl fault ↦ absurd (ground arith)
      | inr (p, g) ↦ ground arith
    ]
    | inr within ↦ elim (Option-cases (bisect_counted lt k addr nn 0 right count)) [
      | inl fault ↦ absurd (ground arith)
      | inr ((l, r, c1), bisected) ↦ elim (Option-cases (look_back_counted lt addr nn l c1)) [
        | inl fault ↦ absurd (ground arith)
        | inr ((b, l', c2), looked) ↦
            let (few, low) =
              bisect_rounds k n 0 right count l r c1 (omega arith) (omega arith) (omega arith)
                bisected in
            let back = look_back_rounds l c1 b l' c2 (omega arith) looked in
            let kept : c.compare_count ≡ c2 = after_rounds r (b, l', c2) c (ground arith) in
            omega arith
      ]
    ]
  ]

  -- On a pool of `k` entries with `k` at most `2 ^ n`, an insertion adds at most `n + k` to the
  -- counter: the rounds of the bisection and those of the look back.
  pub insert_bounded :
      (n count : ℕ) (c : Counted D)
      → count + n + k < u32_mod
      → k ≤ 2 ^ n
      → 0 < k
      → insert_with_compare_count lt addr k nn count ≡ some c
      → c.compare_count ≤ count + n + k
  unfolding insert_with_compare_count
  insert_bounded n count c w h pos q = by_size k refl
    where
      by_size : (m : ℕ) → k ≡ m → c.compare_count ≤ count + n + k
      by_size zero e = absurd (omega arith)
      by_size (suc right) e = elim (Option-cases (get_elem? addr 0)) [
        | inl fault ↦ absurd (ground arith)
        | inr (first, g) ↦ elim (Bool-cases (lt nn.distance first.distance)) [
          | inl nearest ↦ elim (Option-cases (place lt addr k nn 0)) [
            | inl fault ↦ absurd (ground arith)
            | inr (p, g') ↦ ground arith
          ]
          | inr other ↦ elim (Option-cases (get_elem? addr right)) [
            | inl fault ↦ absurd (ground arith)
            | inr (last, g') ↦
                let bound =
                  from_end_rounds n count right last c (omega arith) (omega arith) (ground arith) in
                ground arith
          ]
        ]
      ]
