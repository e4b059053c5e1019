-- ===== src/Nsg/Optimum/Found.antt =====
-- The pool at the end of a search.
use near_mem_nsg.Base.{
  ℕ, zero, suc, ◌≤◌, ◌<◌, ◌≡◌, inl, inr, Bool, true, false, some, List, [], ◌∷◌, arith,
  Option-cases, length, get_elem?, All,
}
use near_mem_nsg.Nsg.Pool.{Neighbor}
use near_mem_nsg.Nsg.Graph.{Graph}
use near_mem_nsg.Nsg.GetData.Answers.{IsGraph, get_data-IsGood}
use near_mem_nsg.Nsg.Steps.{steps}
use near_mem_nsg.Nsg.Steps.Ends.{FitPool, steps_left}
use near_mem_nsg.Nsg.Optimum.{IsSettled}
use near_mem_nsg.Nsg.Optimum.Exploring.{AreFlagged}
use near_mem_nsg.Nsg.Optimum.Reached.{IsReached, get_data-Reached}

module _ {V D : Type 0} (lt : D → D → Bool) (asym : (a b : D) → lt a b ≡ true → lt b a ≡ false)
    (chain : (a b c : D) → lt a b ≡ false → lt b c ≡ false → lt a c ≡ false) (compare : V → V → D)
    (base : List V) (l : ℕ) (pos : 0 < l) (g : Graph) (graph : IsGraph g)
    (vectors : g.nd ≤ length base) (query : V) where
  abbrev Fit : List (Neighbor D) → List Bool → Type 0
  Fit = FitPool lt asym compare base l pos g graph vectors

  abbrev left : ℕ → List (Neighbor D) → List Bool → ℕ
  left = steps_left lt asym compare base l pos g graph vectors

  abbrev Reached : ℕ → List (Neighbor D) → List Bool → Type 0
  Reached = IsReached lt compare base l g query

  pub steps-Reached :
      (n k edge : ℕ) (retset : List (Neighbor D)) (flags : List Bool)
      → Fit retset flags
      → Reached k retset flags
      → left k retset flags < n
      → (pool : List (Neighbor D)) × (seen : List Bool) × (steps lt compare base l n g query k edge
            retset flags
          ≡ some (pool, seen))
        × Fit pool seen
        × Reached l pool seen
  unfolding steps
  steps-Reached zero k edge retset flags fit x fuel = absurd (omega arith)
  steps-Reached (suc n) k edge retset flags fit x fuel =
      let (a, q, good) =
        get_data-IsGood lt asym compare base l pos g graph vectors query k edge retset flags fit in
      let (ends, goes) =
        get_data-Reached lt asym chain compare base l pos g graph vectors query k edge retset flags
          a fit x q in
      elim (Option-cases a.next_k) [
        | inl last ↦ (a.retset, a.flags, ground (arith, q, last), good.fit, ends last)
        | inr (k', next) ↦
            let (pool, seen, q', fit', x') =
              steps-Reached n k' a.edge_table_id a.retset a.flags good.fit (goes k' next)
                (omega (arith, good.nearer k' next)) in
            (pool, seen, ground (arith, q, next, q'), fit', x')
      ]

  AreFlagged-settled :
      (pool : List (Neighbor D)) (seen : List Bool) (ids : List ℕ)
      → ((id : ℕ) → get_elem? seen id ≡ some true → IsSettled lt compare base l query id pool)
      → AreFlagged seen ids
      → All (λ id. IsSettled lt compare base l query id pool) ids
  AreFlagged-settled pool seen [] s h = tt
  AreFlagged-settled pool seen (id ∷ ids) s h = (s id h.0, AreFlagged-settled pool seen ids s h.1)

  -- Every neighbour of one of the first `L` entries stands among these, or is no nearer to the query
  -- than the last of them.
  abbrev pub IsOptimum : List (Neighbor D) → Type 0
  IsOptimum pool =
      (i : ℕ) (e : Neighbor D) (edges : List ℕ)
      → i < l
      → get_elem? pool i ≡ some e
      → get_elem? g.final_graph e.id ≡ some edges
      → All (λ id. IsSettled lt compare base l query id pool) edges

  pub Reached-IsOptimum :
      (pool : List (Neighbor D)) (seen : List Bool) → Reached l pool seen → IsOptimum pool
  Reached-IsOptimum pool seen x i e edges w h h' =
      AreFlagged-settled pool seen edges x.settled
        (x.expanded i e w h (x.passed i e w w h) edges h')
