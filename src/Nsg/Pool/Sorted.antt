-- ===== src/Nsg/Pool/Sorted.antt =====
-- An insertion keeps a pool in order.
use near_mem_nsg.Base.{
  ℕ, zero, suc, ◌<◌, ◌≡◌, refl, sym, subst, ◌∙◌, inl, inr, Bool, true, false, some, List, [], ◌∷◌,
  arith, ltb, ◌==◌, Bool-cases, length, get_elem?, set, length-set, get_elem?-set-ne,
}
use near_mem_nsg.Nsg.Pool.{Neighbor, insert_into_pool}
use near_mem_nsg.Nsg.Pool.Shift.{
  shift_in, length-shift_in, get_elem?-shift_in_before, get_elem?-shift_in_at,
  get_elem?-shift_in_after,
}
use near_mem_nsg.Nsg.Pool.Outcome.{
  Outcome, inserted, past_end, duplicate, Precedes, Follows, insert-Outcome,
}

module _ {D : Type 0} (lt : D → D → Bool) where
  -- No entry of the first `k` is nearer than the one before it.
  abbrev pub IsSorted : ℕ → List (Neighbor D) → Type 0
  IsSorted k xs =
      (i : ℕ) (a b : Neighbor D)
      → suc i < k
      → get_elem? xs i ≡ some a
      → get_elem? xs (suc i) ≡ some b
      → lt b.distance a.distance ≡ false

  module _ (addr : List (Neighbor D)) (k : ℕ) (nn : Neighbor D) (room : k < length addr) where
    shift_in-IsSorted :
        (r : ℕ)
        → r < k
        → ((j : ℕ) → suc j ≡ r → Precedes lt addr k nn j)
        → Follows lt addr k nn r
        → IsSorted k addr
        → IsSorted k (shift_in r k nn addr)
    shift_in-IsSorted r h p f s i a b w ga gb = elim (Bool-cases (ltb (suc i) r)) [
      | inl below ↦
          s i a b w (sym (get_elem?-shift_in_before r k i nn addr (ground arith)) ∙ ga)
            (sym (get_elem?-shift_in_before r k (suc i) nn addr (ground arith)) ∙ gb)
      | inr reached ↦ elim (Bool-cases (suc i == r)) [
        | inl next ↦
            let same : suc i ≡ r = ground arith in
            let new : get_elem? (shift_in r k nn addr) (suc i) ≡ some nn =
              rw same (get_elem?-shift_in_at r k nn addr (omega arith) room) in
            let old = sym (get_elem?-shift_in_before r k i nn addr (omega arith)) ∙ ga in
            ground (arith, new, p i same a old)
        | inr past ↦ elim (Bool-cases (i == r)) [
          | inl at ↦
              let same : i ≡ r = ground arith in
              let new : get_elem? (shift_in r k nn addr) i ≡ some nn =
                rw same (get_elem?-shift_in_at r k nn addr (omega arith) room) in
              let old =
                sym (get_elem?-shift_in_after r k i nn addr (omega arith) (omega arith)) ∙ gb in
              ground (arith, new, f b (subst (λ j. get_elem? addr j ≡ some b) same old))
          | inr beyond ↦ after i a b (ground arith) w ga gb
        ]
      ]
    ]
      where
        after :
            (i : ℕ) (a b : Neighbor D)
            → r < i
            → suc i < k
            → get_elem? (shift_in r k nn addr) i ≡ some a
            → get_elem? (shift_in r k nn addr) (suc i) ≡ some b
            → lt b.distance a.distance ≡ false
        after zero a b past w ga gb = absurd (omega arith)
        after (suc i) a b past w ga gb =
            s i a b (omega arith)
              (sym (get_elem?-shift_in_after r k i nn addr (omega arith) (omega arith)) ∙ ga)
              (sym (get_elem?-shift_in_after r k (suc i) nn addr (omega arith) (omega arith)) ∙ gb)

    -- A pool after an insertion: as long as before, and in order if it was.
    abbrev KeepsOrder : List (Neighbor D) → Type 0
    KeepsOrder pool = (length pool ≡ length addr) × (IsSorted k addr → IsSorted k pool)

    Outcome-KeepsOrder :
        (r : ℕ) (pool : List (Neighbor D)) → Outcome lt addr k nn r pool → KeepsOrder pool
    Outcome-KeepsOrder r pool (inserted i h p f) =
        (length-shift_in i k nn addr room, shift_in-IsSorted i h p f)
    Outcome-KeepsOrder r pool (past_end j e w g q) = (
      length-set addr k nn,
      λ s i a b w ga gb.
          s i a b w (sym (get_elem?-set-ne addr k i nn (omega arith)) ∙ ga)
            (sym (get_elem?-set-ne addr k (suc i) nn (omega arith)) ∙ gb),
    )
    Outcome-KeepsOrder r pool (duplicate j e w g q) = (refl, λ s. s)

    -- `InsertIntoPool` returns on a pool with at least one entry and a slot past it. It shifts the
    -- new entry in between entries that it fits, or writes it to that slot as the farthest, or
    -- leaves the pool, which has an entry with its id. The pool keeps its length, and its order if
    -- it was in order.
    pub insert-IsSorted :
        ((a b : D) → lt a b ≡ true → lt b a ≡ false)
        → 0 < k
        → (r : ℕ) × (pool : List (Neighbor D)) × (insert_into_pool lt addr k nn ≡ some (r, pool))
          × Outcome lt addr k nn r pool
          × (length pool ≡ length addr)
          × (IsSorted k addr → IsSorted k pool)
    insert-IsSorted asym pos =
        let (r, pool, ends, o) = insert-Outcome lt asym addr k nn room pos in
        let (same, order) = Outcome-KeepsOrder r pool o in (r, pool, ends, o, same, order)

  set_entry :
      (xs : List (Neighbor D)) (k i : ℕ) (e e' a : Neighbor D)
      → get_elem? xs k ≡ some e
      → e'.distance ≡ e.distance
      → get_elem? (set xs k e') i ≡ some a
      → (a' : Neighbor D) × (get_elem? xs i ≡ some a') × (a'.distance ≡ a.distance)
  set_entry [] k i e e' a h d q = absurd (ground arith)
  set_entry (x ∷ xs) zero zero e e' a h d q = (x, refl, ground arith)
  set_entry (x ∷ xs) zero (suc i) e e' a h d q = (a, q, refl)
  set_entry (x ∷ xs) (suc k) zero e e' a h d q = (a, q, refl)
  set_entry (x ∷ xs) (suc k) (suc i) e e' a h d q = set_entry xs k i e e' a h d q

  -- An entry may change but for its distance.
  pub set-IsSorted :
      (l : ℕ) (xs : List (Neighbor D)) (k : ℕ) (e e' : Neighbor D)
      → get_elem? xs k ≡ some e
      → e'.distance ≡ e.distance
      → IsSorted l xs
      → IsSorted l (set xs k e')
  set-IsSorted l xs k e e' h d s i a b w ga gb =
      let (a', ga', da) = set_entry xs k i e e' a h d ga in
      let (b', gb', db) = set_entry xs k (suc i) e e' b h d gb in
      ground (arith, s i a' b' w ga' gb')
