-- ===== src/Nsg/Steps/Ends.antt =====
-- The steps of a search come to an end.
use near_mem_nsg.Base.{
  ℕ, zero, suc, ◌≤◌, ◌<◌, ◌≡◌, inl, inr, Bool, true, false, some, List, arith, Option-cases, length,
}
use near_mem_nsg.Nsg.Pool.{Neighbor}
use near_mem_nsg.Nsg.Graph.{Graph}
use near_mem_nsg.Nsg.GetData.Total.{IsFit}
use near_mem_nsg.Nsg.GetData.Answers.{IsGraph, fresh, rank, get_data-IsGood}
use near_mem_nsg.Nsg.Steps.{steps}

module _ {V D : Type 0} (lt : D → D → Bool) (asym : (a b : D) → lt a b ≡ true → lt b a ≡ false)
    (compare : V → V → D) (base : List V) (l : ℕ) (pos : 0 < l) (g : Graph) (graph : IsGraph g)
    (vectors : g.nd ≤ length base) where
  abbrev pub FitPool : List (Neighbor D) → List Bool → Type 0
  FitPool retset flags =
      IsFit lt asym compare base l g.nd pos vectors
        (fresh lt asym compare base l pos g graph vectors retset flags)

  abbrev pub steps_left : ℕ → List (Neighbor D) → List Bool → ℕ
  steps_left = rank lt asym compare base l pos g graph vectors

  -- On a well-formed graph with a vector for each node, a search by steps from a well-formed pool
  -- ends, within (nodes without a flag + entries to be expanded) times (L + 1), plus L, steps and
  -- the one that answers -1; its pool is well-formed, and so sorted.
  pub steps_end :
      (query : V) (n k edge : ℕ) (retset : List (Neighbor D)) (flags : List Bool)
      → FitPool retset flags
      → steps_left k retset flags < n
      → (pool : List (Neighbor D)) × (seen : List Bool) × (steps lt compare base l n g query k edge
            retset flags
          ≡ some (pool, seen))
        × FitPool pool seen
  unfolding steps
  steps_end query zero k edge retset flags fit fuel = absurd (omega arith)
  steps_end query (suc n) k edge retset flags fit fuel =
      let (a, q, good) =
        get_data-IsGood lt asym compare base l pos g graph vectors query k edge retset flags fit in
      elim (Option-cases a.next_k) [
        | inl last ↦ (a.retset, a.flags, ground (arith, q, last), good.fit)
        | inr (k', next) ↦
            let (pool, seen, q', fit') =
              steps_end query n k' a.edge_table_id a.retset a.flags good.fit
                (omega (arith, good.nearer k' next)) in
            (pool, seen, ground (arith, q, next, q'), fit')
      ]
