-- ===== src/Nsg/NewSearch/Start.antt =====
-- The pool that a search starts from, over a `std::sort` that sorts.
use near_mem_nsg.Base.{
  ℕ, zero, suc, ◌+◌, ◌-◌, ◌*◌, ◌≤◌, ◌<◌, ◌≡◌, refl, sym, subst, ◌∙◌, Bool, true, false, some, List,
  [], ◌∷◌, ◌++◌, arith, length, drop, replicate, All, length-append, length-replicate, get_elem?-lt,
  All-append, take-append, drop-append, get_elem?-append, length-perm, All-perm,
}
use mathlib.Core.List.{Perm}
use mathlib.Core.List.Perm
use native.Mathlib.Bridge.{le_prop}
use near_mem_nsg.Nsg.Pool.{Neighbor}
use near_mem_nsg.Nsg.Pool.Sorted.{IsSorted}
use near_mem_nsg.Nsg.Graph.{Graph}
use near_mem_nsg.Nsg.Potential.{unseen, active}
use near_mem_nsg.Nsg.GetData.{ranked, new_search_init}
use near_mem_nsg.Nsg.GetData.Answers.{IsGraph}
use near_mem_nsg.Nsg.Steps.Ends.{FitPool, steps_left}

-- `std::sort` gives the entries back in order.
pub record IsSort {D : Type 0} (lt : D → D → Bool) (sort : List (Neighbor D) → List (Neighbor D))
    : Type 0 where
  pub permutes : (xs : List (Neighbor D)) → Perm (sort xs) xs
  pub ordered : (xs : List (Neighbor D)) → IsSorted lt (length xs) (sort xs)

scale : (a b m c : ℕ) → a ≤ b → a * m + (c - 0) ≤ b * m + c
scale a b zero c h = omega arith
scale a b (suc m) c h = grind (arith, scale a b m c h)

unseen-length : (flags : List Bool) → unseen flags ≤ length flags
unseen-length [] = omega arith
unseen-length (true ∷ bs) = omega (arith, unseen-length bs)
unseen-length (false ∷ bs) = omega (arith, unseen-length bs)

active-length : {D : Type 0} (xs : List (Neighbor D)) → active xs ≤ length xs
active-length [] = omega arith
active-length (x ∷ xs) = ground (arith, active-length xs)

module _ {V D : Type 0} (lt : D → D → Bool) (asym : (a b : D) → lt a b ≡ true → lt b a ≡ false)
    (compare : V → V → D) (base : List V) (l : ℕ) (pos : 0 < l) (g : Graph) (graph : IsGraph g)
    (vectors : g.nd ≤ length base) where
  pub ranked_lem :
      (query : V) (ids : List ℕ)
      → All (λ id. id < g.nd) ids
      → (entries : List (Neighbor D)) × (ranked lt compare base l query ids ≡ some entries)
        × (length entries ≡ length ids)
        × All (λ e. e.id < g.nd) entries
  unfolding ranked
  ranked_lem query [] h = ([], refl, refl, tt)
  ranked_lem query (id ∷ ids) h =
      let (v, q) = get_elem?-lt base id (omega (arith, h.0)) in
      let (entries, q', n, own) = ranked_lem query ids h.1 in
      (
        record { id = id; distance = compare v query; flag = true } ∷ entries,
        ground (arith, q, q'),
        omega (arith, n),
        (h.0, own),
      )

  drop-replicate : (n : ℕ) (e : Neighbor D) → drop n (replicate (suc n) e) ≡ e ∷ []
  drop-replicate zero e = refl
  drop-replicate (suc n) e = drop-replicate n e

  IsSorted-append :
      (n : ℕ) (xs ys : List (Neighbor D))
      → n ≤ length xs
      → IsSorted lt n xs
      → IsSorted lt n (xs ++ ys)
  IsSorted-append n xs ys h s i a b w ga gb =
      s i a b w (sym (get_elem?-append xs ys i (omega arith)) ∙ ga)
        (sym (get_elem?-append xs ys (suc i) (omega arith)) ∙ gb)

  -- The pool that `NewSearchInit` makes of `L` ids.
  pub new_search_init_pool :
      (sort : List (Neighbor D) → List (Neighbor D)) (blank : Neighbor D) (ids : List ℕ)
      (entries : List (Neighbor D)) (query : V)
      → length ids ≡ l
      → length entries ≡ l
      → ranked lt compare base l query ids ≡ some entries
      → new_search_init lt compare base l sort ids (replicate (l + 1) blank) query
        ≡ some (sort entries ++ blank ∷ [])
  unfolding new_search_init
  new_search_init_pool sort blank ids entries query full size q =
      let one : l + 1 ≡ suc l = omega arith in
      let rest : drop (length ids) (replicate (l + 1) blank) ≡ blank ∷ [] =
        rw (full, one) (drop-replicate l blank) in
      let kept = take-append entries (blank ∷ []) l size in
      let last = drop-append entries (blank ∷ []) l size in
      let wide : length (replicate (l + 1) blank) ≡ l + 1 = length-replicate (l + 1) blank in
      ground (arith, q, rest, kept, last, wide)

  -- `NewSearchInit` on `L` ids of nodes fills the pool with these, sorted by their distances; the
  -- pool and any flags for the nodes are well-formed, and bound the search that starts from them.
  pub new_search_init_fit :
      (sort : List (Neighbor D) → List (Neighbor D)) (blank : Neighbor D) (ids : List ℕ)
      (flags : List Bool) (query : V)
      → IsSort lt sort
      → blank.id < g.nd
      → length ids ≡ l
      → All (λ id. id < g.nd) ids
      → length flags ≡ g.nd
      → (retset : List (Neighbor D)) × (new_search_init lt compare base l sort ids
            (replicate (l + 1) blank)
            query
          ≡ some retset)
        × FitPool lt asym compare base l pos g graph vectors retset flags
        × (steps_left lt asym compare base l pos g graph vectors 0 retset flags
            ≤ (g.nd + l + 1) * (l + 1) + l)
  new_search_init_fit sort blank ids flags query sorts node full own nodes =
      let (entries, q, n, own') = ranked_lem query ids own in
      let size : length entries ≡ l = n ∙ full in
      let pool = sort entries ++ blank ∷ [] in
      let long : length (sort entries) ≡ l = length-perm (sorts.permutes entries) ∙ size in
      let waiting = active-length pool in
      let unflagged = unseen-length flags in
      let wide_pool : length pool ≡ l + 1 =
        omega (arith, long, length-append (sort entries) (blank ∷ [])) in
      let start_bound : (unseen flags + active pool) * (l + 1) + (l - 0)
          ≤ (g.nd + l + 1) * (l + 1) + l =
        scale (unseen flags + active pool) (g.nd + l + 1) (l + 1) l
          (omega (arith, waiting, unflagged, wide_pool)) in
      (
        pool,
        new_search_init_pool sort blank ids entries query full size q,
        record {
          room = omega (arith, long, length-append (sort entries) (blank ∷ []));
          nodes = nodes;
          ids =
              All-append (λ e. e.id < g.nd) (sort entries) (blank ∷ [])
                (All-perm (λ e. e.id < g.nd) (λ e. le_prop) entries (sort entries)
                  (Perm.symm (sorts.permutes entries)) own')
                (node, tt);
          sorted =
              IsSorted-append l (sort entries) (blank ∷ []) (omega (arith, long))
                (subst (λ m. IsSorted lt m (sort entries)) size (sorts.ordered entries));
        },
        start_bound,
      )
