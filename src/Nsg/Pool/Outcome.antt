-- ===== src/Nsg/Pool/Outcome.antt =====
-- What an insertion into a pool does, on every path.
use near_mem_nsg.Base.{
  ℕ, zero, suc, ◌+◌, ◌-◌, ◌/◌, ◌≤◌, ◌<◌, ◌≡◌, refl, sym, subst, ◌⊎◌, inl, inr, Bool, true, false,
  Option, some, List, arith, ltb, ◌==◌, ==_iff, Bool-cases, ◌>>=◌, length, get_elem?, set,
  get_elem?-lt,
}
use near_mem_nsg.Nsg.Pool.{
  Neighbor, write, place, last_index, bisect, look_back, insert_between, insert_after,
  insert_from_end, insert_into_pool,
}
use near_mem_nsg.Nsg.Pool.Shift.{shift_in, place-shift_in}

module _ {D : Type 0} (lt : D → D → Bool) (addr : List (Neighbor D)) (k : ℕ) (nn : Neighbor D) where
  -- An entry that the new one may follow, and one that may follow it.
  abbrev pub Precedes : ℕ → Type 0
  Precedes i = (e : Neighbor D) → get_elem? addr i ≡ some e → lt nn.distance e.distance ≡ false

  abbrev pub Follows : ℕ → Type 0
  Follows i = (e : Neighbor D) → get_elem? addr i ≡ some e → lt e.distance nn.distance ≡ false

  -- The position that is returned, with the pool that is left: the new entry is shifted in between
  -- entries that it fits, is written to the slot past the pool as the farthest, or is refused since
  -- an entry of the pool has its id.
  pub data Outcome : ℕ → List (Neighbor D) → Type 0 where
    inserted :
        (i : ℕ)
        → i < k
        → ((j : ℕ) → suc j ≡ i → Precedes j)
        → Follows i
        → Outcome i (shift_in i k nn addr)
    past_end :
        (j : ℕ) (e : Neighbor D)
        → suc j ≡ k
        → get_elem? addr j ≡ some e
        → lt e.distance nn.distance ≡ true
        → Outcome k (set addr k nn)
    duplicate :
        (j : ℕ) (e : Neighbor D)
        → j < k
        → get_elem? addr j ≡ some e
        → e.id ≡ nn.id
        → Outcome (k + 1) addr

  abbrev HasOutcome : Option (ℕ × List (Neighbor D)) → Type 0
  HasOutcome o = (r : ℕ) × (pool : List (Neighbor D)) × (o ≡ some (r, pool)) × Outcome r pool

module _ {D : Type 0} (lt : D → D → Bool) (asym : (a b : D) → lt a b ≡ true → lt b a ≡ false)
    (addr : List (Neighbor D)) (k : ℕ) (nn : Neighbor D) (room : k < length addr) where
  place-Outcome :
      (i : ℕ)
      → i < k
      → ((j : ℕ) → suc j ≡ i → Precedes lt addr k nn j)
      → Follows lt addr k nn i
      → HasOutcome lt addr k nn (place lt addr k nn i)
  place-Outcome i h p f = (
    i,
    shift_in i k nn addr,
    place-shift_in lt addr k nn i (omega arith) room,
    Outcome.inserted i h p f,
  )

  -- Neighbouring positions, or the front.
  abbrev Meets : ℕ → ℕ → Type 0
  Meets l r = (suc l ≡ r) ⊎ ((r ≡ 0) × (l ≡ 0))

  -- A bisection has ended at neighbouring positions that the new entry fits between.
  record Found (o : Option (ℕ × ℕ)) : Type 0 where
    l : ℕ
    r : ℕ
    ends : o ≡ some (l, r)
    inside : r < k
    meets : Meets l r
    precedes : Precedes lt addr k nn l
    follows : Follows lt addr k nn r

  bisect_lem :
      (n left right : ℕ)
      → right - left < n
      → right < k
      → (left < right) ⊎ ((right ≡ 0) × (left ≡ 0))
      → Precedes lt addr k nn left
      → Follows lt addr k nn right
      → Found (bisect lt n addr nn left right)
  unfolding bisect
  bisect_lem zero left right fuel h w p f = absurd (omega arith)
  bisect_lem (suc n) left right fuel h w p f = elim (Bool-cases (ltb left (right - 1))) [
    | inr stop ↦ record {
      l = left;
      r = right;
      ends = rw stop refl;
      inside = h;
      meets = ground arith;
      precedes = p;
      follows = f;
    }
    | inl go ↦
        let (e, g) = get_elem?-lt addr ((left + right) / 2) (ground arith) in
        elim (Bool-cases (lt nn.distance e.distance)) [
          | inl farther ↦
              let rest =
                bisect_lem n left ((left + right) / 2) (ground arith) (ground arith)
                  (inl (ground arith)) p (λ e' g'. ground (arith, asym nn.distance e.distance)) in
              rw (go, g, farther) rest
          | inr nearer ↦
              let rest =
                bisect_lem n ((left + right) / 2) right (ground arith) h (inl (ground arith))
                  (λ e' g'. ground arith) f in
              rw (go, g, nearer) rest
        ]
  ]

  look_back_lem :
      (left : ℕ)
      → left < k
      → (b : Bool) × (l : ℕ) × (look_back lt addr nn left ≡ some (b, l))
        × (l ≤ left)
        × (b ≡ true → (e : Neighbor D) × (get_elem? addr l ≡ some e) × (e.id ≡ nn.id))
  unfolding look_back
  look_back_lem zero h = (false, zero, refl, omega arith, λ w. absurd (ground arith))
  look_back_lem (suc left) h =
      let (e, g) = get_elem?-lt addr (suc left) (omega arith) in
      let (b, l, q, below, found) = look_back_lem left (omega arith) in
      elim (Bool-cases (lt e.distance nn.distance)) [
        | inl nearer ↦
            (false, suc left, rw (g, nearer) refl, omega arith, λ w. absurd (ground arith))
        | inr other ↦ elim (Bool-cases (e.id == nn.id)) [
          | inl same ↦ (
            true,
            suc left,
            rw (g, other, same) refl,
            omega arith,
            λ w. (e, g, (==_iff e.id nn.id).0 same),
          )
          | inr differs ↦ (b, l, rw (g, other, differs) q, omega arith, found)
        ]
      ]

  after_lem :
      (l r : ℕ)
      → r < k
      → Meets l r
      → Precedes lt addr k nn l
      → Follows lt addr k nn r
      → HasOutcome lt addr k nn (look_back lt addr nn l >>= insert_after lt addr k nn r)
  unfolding insert_after insert_between
  after_lem l r h m p f =
      let (b, l', q, below, found) = look_back_lem l (ground arith) in
      elim (Bool-cases b) [
        | inl dup ↦
            let (e, g, same) = found dup in
            (k + 1, addr, ground arith, Outcome.duplicate l' e (ground arith) g same)
        | inr fresh ↦
            let (el, gl) = get_elem?-lt addr l' (ground arith) in
            let (er, gr) = get_elem?-lt addr r (omega arith) in
            elim (Bool-cases (el.id == nn.id)) [
              | inl same ↦ (
                k + 1,
                addr,
                ground arith,
                Outcome.duplicate l' el (ground arith) gl (ground arith),
              )
              | inr differs ↦ elim (Bool-cases (er.id == nn.id)) [
                | inl same ↦ (k + 1, addr, ground arith, Outcome.duplicate r er h gr (ground arith))
                | inr differs' ↦
                    let (i, pool, placed, o) =
                      place-Outcome r h (λ j s. subst (Precedes lt addr k nn) (before j s) p) f in
                    (i, pool, ground arith, o)
              ]
            ]
      ]
    where
      before : (j : ℕ) → suc j ≡ r → l ≡ j
      before j s = ground arith

  from_end_lem :
      (right : ℕ) (e : Neighbor D)
      → suc right ≡ k
      → get_elem? addr right ≡ some e
      → Precedes lt addr k nn 0
      → HasOutcome lt addr k nn (insert_from_end lt addr k nn right e)
  unfolding insert_from_end write
  from_end_lem right e last g p = elim (Bool-cases (lt e.distance nn.distance)) [
    | inl farthest ↦ (k, set addr k nn, ground arith, Outcome.past_end right e last g farthest)
    | inr within ↦
        let b =
          bisect_lem k 0 right (omega arith) (omega arith) (ground arith) p
            (λ e' g'. ground arith) in
        let (i, pool, q, o) = after_lem b.l b.r b.inside b.meets b.precedes b.follows in
        (i, pool, ground (arith, b.ends), o)
  ]

  -- With at least one entry in the pool and a slot past it, `InsertIntoPool` returns.
  pub insert-Outcome : 0 < k → HasOutcome lt addr k nn (insert_into_pool lt addr k nn)
  unfolding insert_into_pool
  insert-Outcome pos =
      let (first, g) = get_elem?-lt addr 0 (omega arith) in
      elim (Bool-cases (lt nn.distance first.distance)) [
        | inl nearest ↦
            let (i, pool, q, o) =
              place-Outcome 0 pos (λ j s. absurd (omega arith))
                (λ e g'. ground (arith, asym nn.distance first.distance)) in
            (i, pool, ground arith, o)
        | inr other ↦ by_size k refl first g other
      ]
    where
      by_size :
          (n : ℕ)
          → k ≡ n
          → (first : Neighbor D) → get_elem? addr 0 ≡ some first
          → lt nn.distance first.distance ≡ false
          → HasOutcome lt addr k nn (insert_into_pool lt addr k nn)
      by_size zero e first g other = absurd (omega arith)
      by_size (suc right) e first g other =
          let (last, g') = get_elem?-lt addr right (omega arith) in
          let (i, pool, q, o) = from_end_lem right last (sym e) g' (λ e' g''. ground arith) in
          let ends : last_index k ≡ some right = rw e refl in
          (i, pool, rw (insert_into_pool, g, other, ends, g') q, o)
