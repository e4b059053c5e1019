-- ===== src/Nsg/Optimum/Insertion.antt =====
-- What an insertion settles.
use near_mem_nsg.Base.{
  ℕ, zero, suc, ◌-◌, ◌<◌, ◌≡◌, refl, sym, subst, ◌∙◌, ◌⊎◌, inl, inr, Bool, true, false, some, List,
  arith, ltb, ◌==◌, ltb→lt, Bool-cases, length, get_elem?, set, get_elem?-lt, get_elem?-set-ne,
}
use mathlib.Core.Option.{some-injective}
use near_mem_nsg.Nsg.Pool.{Neighbor}
use near_mem_nsg.Nsg.Pool.Shift.{
  shift_in, get_elem?-shift_in_before, get_elem?-shift_in_at, get_elem?-shift_in_after,
}
use near_mem_nsg.Nsg.Pool.Outcome.{Outcome, inserted, past_end, duplicate, Follows}
use near_mem_nsg.Nsg.Pool.Sorted.{IsSorted}
use near_mem_nsg.Nsg.Optimum.{IsInPool, IsNoNearer, IsSettled, IsMeasured}

-- What stands at an index of the pool after a new entry has been shifted in: it, or an old entry.
pub entry-shift_in :
    {A : Type 0} (i k j : ℕ) (y e : A) (xs : List A)
    → i < k
    → k < length xs
    → j < k
    → get_elem? (shift_in i k y xs) j ≡ some e
    → (e ≡ y) ⊎ ((j' : ℕ) × (j' < k) × (get_elem? xs j' ≡ some e))
entry-shift_in i k j y e xs h room w g = elim (Bool-cases (ltb j i)) [
  | inl before ↦ inr (j, w, sym (get_elem?-shift_in_before i k j y xs (ltb→lt j i before)) ∙ g)
  | inr reached ↦ elim (Bool-cases (j == i)) [
    | inl at ↦ inl (ground (arith, get_elem?-shift_in_at i k y xs (omega arith) room))
    | inr after ↦ past j w (ground arith) g
  ]
]
  where
    past :
        (j : ℕ)
        → j < k
        → i < j
        → get_elem? (shift_in i k y xs) j ≡ some e
        → (e ≡ y) ⊎ ((j' : ℕ) × (j' < k) × (get_elem? xs j' ≡ some e))
    past zero w p g = absurd (omega arith)
    past (suc j) w p g =
        inr (
          j,
          omega arith,
          sym (get_elem?-shift_in_after i k j y xs (omega arith) (omega arith)) ∙ g,
        )

module _ {D : Type 0} (lt : D → D → Bool) (l : ℕ) where
  -- After an insertion the first `L` entries are the new one and old ones.
  pub Outcome-entries :
      (addr : List (Neighbor D)) (nn : Neighbor D) (r : ℕ) (pool : List (Neighbor D)) (j : ℕ)
      (e : Neighbor D)
      → l < length addr
      → Outcome lt addr l nn r pool
      → j < l
      → get_elem? pool j ≡ some e
      → (e ≡ nn) ⊎ ((j' : ℕ) × (j' < l) × (get_elem? addr j' ≡ some e))
  Outcome-entries addr nn r pool j e room (inserted i w p f) h g =
      entry-shift_in i l j nn e addr w room h g
  Outcome-entries addr nn r pool j e room (past_end j' e' w g' q) h g =
      inr (j, h, sym (get_elem?-set-ne addr l j nn h) ∙ g)
  Outcome-entries addr nn r pool j e room (duplicate j' e' w g' q) h g = inr (j, h, g)

  -- Those before the position that is returned stay.
  pub Outcome-before :
      (addr : List (Neighbor D)) (nn : Neighbor D) (r : ℕ) (pool : List (Neighbor D)) (j : ℕ)
      → Outcome lt addr l nn r pool
      → j < r
      → j < l
      → get_elem? pool j ≡ get_elem? addr j
  Outcome-before addr nn r pool j (inserted i w p f) h h' =
      get_elem?-shift_in_before i l j nn addr h
  Outcome-before addr nn r pool j (past_end j' e' w g' q) h h' = get_elem?-set-ne addr l j nn h'
  Outcome-before addr nn r pool j (duplicate j' e' w g' q) h h' = refl

module _ {V D : Type 0} (lt : D → D → Bool) (asym : (a b : D) → lt a b ≡ true → lt b a ≡ false)
    (chain : (a b c : D) → lt a b ≡ false → lt b c ≡ false → lt a c ≡ false) (compare : V → V → D)
    (base : List V) (l : ℕ) (query : V) (addr : List (Neighbor D)) (nn : Neighbor D)
    (room : l < length addr) (sorted : IsSorted lt l addr) where
  abbrev Settled : ℕ → List (Neighbor D) → Type 0
  Settled = IsSettled lt compare base l query

  -- The last of the first `L` entries after an insertion is not farther than before.
  last_nearer :
      (i : ℕ) (old new : Neighbor D)
      → i < l
      → Follows lt addr l nn i
      → get_elem? addr (l - 1) ≡ some old
      → get_elem? (shift_in i l nn addr) (l - 1) ≡ some new
      → lt old.distance new.distance ≡ false
  last_nearer i old new h f g g' = elim (Bool-cases (i == l - 1)) [
    | inl at ↦
        let same : i ≡ l - 1 = ground arith in
        let stands : get_elem? (shift_in i l nn addr) (l - 1) ≡ some nn =
          subst (λ j. get_elem? (shift_in i l nn addr) j ≡ some nn) same
            (get_elem?-shift_in_at i l nn addr (omega arith) room) in
        let first = f old (rw same g) in ground (arith, stands, first)
    | inr before ↦ by_size (l - 1) refl (ground arith)
  ]
    where
      by_size : (m : ℕ) → l - 1 ≡ m → i < m → lt old.distance new.distance ≡ false
      by_size zero e w = absurd (omega arith)
      by_size (suc m) e w =
          sorted m new old (omega arith)
            (sym (get_elem?-shift_in_after i l m nn addr (omega arith) (omega arith))
              ∙ subst (λ j. get_elem? (shift_in i l nn addr) j ≡ some new) e g')
            (subst (λ j. get_elem? addr j ≡ some old) e g)

  -- What is no nearer than the last of the pool stays so.
  NoNearer_kept :
      (i id : ℕ) (old : Neighbor D)
      → i < l
      → Follows lt addr l nn i
      → get_elem? addr (l - 1) ≡ some old
      → ((v : V) → get_elem? base id ≡ some v → lt (compare query v) old.distance ≡ false)
      → IsNoNearer lt compare base l query id (shift_in i l nn addr)
  NoNearer_kept i id old h f g far v last q g' =
      chain (compare query v) old.distance last.distance (far v q) (last_nearer i old last h f g g')

  irreflexive : (a : D) → lt a a ≡ false
  irreflexive a = elim (Bool-cases (lt a a)) [ inl less ↦ asym a a less | inr not_less ↦ not_less ]

  measured_last :
      (j : ℕ) (e : Neighbor D) (v : V) (id : ℕ)
      → j < l
      → get_elem? addr j ≡ some e
      → e.id ≡ id
      → IsMeasured lt compare base l query addr
      → get_elem? base id ≡ some v
      → lt (compare query v) e.distance ≡ false
  measured_last j e v id w g own measured q =
      let d = measured j e v w g (rw own q) in rw d (irreflexive (compare query v))

  -- An entry that the insertion pushes out of the first `L` was the last of these.
  InPool_kept :
      (i id : ℕ)
      → i < l
      → Follows lt addr l nn i
      → IsMeasured lt compare base l query addr
      → IsInPool lt compare base l query id addr
      → Settled id (shift_in i l nn addr)
  InPool_kept i id h f measured (j, e, w, g, own) = elim (Bool-cases (ltb j i)) [
    | inl before ↦
        inl (j, e, w, get_elem?-shift_in_before i l j nn addr (ltb→lt j i before) ∙ g, own)
    | inr after ↦ elim (Bool-cases (ltb (suc j) l)) [
      | inl inside ↦ inl (
        suc j,
        e,
        ltb→lt (suc j) l inside,
        get_elem?-shift_in_after i l j nn addr (ground arith) w ∙ g,
        own,
      )
      | inr out ↦
          let last : j ≡ l - 1 = ground arith in
          inr (
            NoNearer_kept i id e h f (subst (λ m. get_elem? addr m ≡ some e) last g)
              (λ v q. measured_last j e v id w g own measured q))
    ]
  ]

  -- An insertion settles the new node, and leaves settled what was.
  pub Outcome-Settled :
      (r : ℕ) (pool : List (Neighbor D)) (v : V)
      → Outcome lt addr l nn r pool
      → get_elem? base nn.id ≡ some v
      → nn.distance ≡ compare query v
      → IsMeasured lt compare base l query addr
      → Settled nn.id pool × ((id : ℕ) → Settled id addr → Settled id pool)
  Outcome-Settled r pool v (inserted i w p f) q d measured =
      let (old, g) = get_elem?-lt addr (l - 1) (omega arith) in
      (
        inl (i, nn, w, get_elem?-shift_in_at i l nn addr (omega arith) room, refl),
        λ id s. kept id old g s,
      )
    where
      kept :
          (id : ℕ) (old : Neighbor D)
          → get_elem? addr (l - 1) ≡ some old
          → Settled id addr
          → Settled id (shift_in i l nn addr)
      kept id old g (inl s) = InPool_kept i id w f measured s
      kept id old g (inr s) = inr (NoNearer_kept i id old w f g (λ v q. s v old q g))
  Outcome-Settled r pool v (past_end j e w g n) q d measured = (inr new, λ id s. kept id s)
    where
      same : (j : ℕ) → j < l → get_elem? (set addr l nn) j ≡ get_elem? addr j
      same j h = get_elem?-set-ne addr l j nn h

      new : IsNoNearer lt compare base l query nn.id (set addr l nn)
      new v' last q' g' =
          let at : get_elem? addr (l - 1) ≡ some e =
            subst (λ m. get_elem? addr m ≡ some e) (pred_lem j w) g in
          let one : some last ≡ some e = sym g' ∙ same (l - 1) (omega arith) ∙ at in
          let two : some v' ≡ some v = sym q' ∙ q in
          below v' last (some-injective last e one) (some-injective v' v two)
        where
          pred_lem : (j : ℕ) → suc j ≡ l → j ≡ l - 1
          pred_lem j w = omega arith

          below :
              (v' : V) (last : Neighbor D)
              → last ≡ e
              → v' ≡ v
              → lt (compare query v') last.distance ≡ false
          below v' last le ve = rw (le, ve, ← d) (asym e.distance nn.distance n)

      kept : (id : ℕ) → Settled id addr → Settled id (set addr l nn)
      kept id (inl (j, e, h, g, own)) = inl (j, e, h, same j h ∙ g, own)
      kept id (inr s) = inr (λ v last q g. s v last q (sym (same (l - 1) (omega arith)) ∙ g))
  Outcome-Settled r pool v (duplicate j e w g n) q d measured = (inl (j, e, w, g, n), λ id s. s)
