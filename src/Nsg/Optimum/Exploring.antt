-- ===== src/Nsg/Optimum/Exploring.antt =====
-- What holds while a search goes through the edges of a node.
use near_mem_nsg.Base.{
  ℕ, ◌≤◌, ◌<◌, ◌≡◌, sym, ap, subst, ◌∙◌, ◌⊎◌, inl, inr, Bool, true, false, some, List, [], ◌∷◌,
  arith, ◌==◌, ==_iff, Bool-cases, length, get_elem?, set, All, get_elem?-set-other,
}
use mathlib.Core.Option.{some-injective}
use near_mem_nsg.Nsg.Pool.{Neighbor}
use near_mem_nsg.Nsg.Pool.Outcome.{Outcome}
use near_mem_nsg.Nsg.Pool.Sorted.{IsSorted}
use near_mem_nsg.Nsg.Graph.{Graph}
use near_mem_nsg.Nsg.Potential.{flag_stays}
use near_mem_nsg.Nsg.Optimum.{IsNoNearer, IsSettled, IsMeasured}
use near_mem_nsg.Nsg.Optimum.Insertion.{Outcome-entries, Outcome-before, Outcome-Settled}

-- All of these nodes have their flags.
abbrev pub AreFlagged : List Bool → List ℕ → Type 0
AreFlagged flags = All (λ id. get_elem? flags id ≡ some true)

-- No flag is lost.
abbrev pub KeepsFlags : List Bool → List Bool → Type 0
KeepsFlags flags flags' = (i : ℕ) → get_elem? flags i ≡ some true → get_elem? flags' i ≡ some true

pub AreFlagged-kept :
    (flags flags' : List Bool) (ids : List ℕ)
    → KeepsFlags flags flags'
    → AreFlagged flags ids
    → AreFlagged flags' ids
AreFlagged-kept flags flags' [] keeps h = tt
AreFlagged-kept flags flags' (id ∷ ids) keeps h =
    (keeps id h.0, AreFlagged-kept flags flags' ids keeps h.1)

module _ {V D : Type 0} (lt : D → D → Bool) (compare : V → V → D) (base : List V) (l : ℕ)
    (g : Graph) (query : V) where
  abbrev Settled : ℕ → List (Neighbor D) → Type 0
  Settled = IsSettled lt compare base l query

  abbrev Measured : List (Neighbor D) → Type 0
  Measured = IsMeasured lt compare base l query

  -- The neighbours of a node have their flags.
  abbrev pub IsExpanded : List Bool → ℕ → Type 0
  IsExpanded flags id =
      (edges : List ℕ) → get_elem? g.final_graph id ≡ some edges → AreFlagged flags edges

  -- In round `k`, which expands the node `n`: the flagged nodes are settled, the entries that do not
  -- wait are expanded, but for `n`, and none waits up to `k` and before `nk`.
  pub record IsExploring (k n : ℕ) (retset : List (Neighbor D)) (flags : List Bool) (nk : ℕ)
      : Type 0 where
    pub measured : Measured retset
    pub settled : (id : ℕ) → get_elem? flags id ≡ some true → Settled id retset
    pub expanded :
        (i : ℕ) (e : Neighbor D)
        → i < l
        → get_elem? retset i ≡ some e
        → e.flag ≡ false
        → (e.id ≡ n) ⊎ IsExpanded flags e.id
    pub passed :
        (i : ℕ) (e : Neighbor D)
        → i < l
        → i < nk
        → i ≤ k
        → get_elem? retset i ≡ some e
        → e.flag ≡ false

  IsExpanded-kept :
      (flags flags' : List Bool) (n id : ℕ)
      → KeepsFlags flags flags'
      → (id ≡ n) ⊎ IsExpanded flags id
      → (id ≡ n) ⊎ IsExpanded flags' id
  IsExpanded-kept flags flags' n id keeps (inl e) = inl e
  IsExpanded-kept flags flags' n id keeps (inr x) =
      inr (λ edges h. AreFlagged-kept flags flags' edges keeps (x edges h))

  settled_with :
      (flags : List Bool) (id i : ℕ) (pool : List (Neighbor D))
      → Settled id pool
      → ((i : ℕ) → get_elem? flags i ≡ some true → Settled i pool)
      → get_elem? (set flags id true) i ≡ some true
      → Settled i pool
  settled_with flags id i pool new old h = elim (Bool-cases (id == i)) [
    | inl same ↦ subst (λ j. Settled j pool) ((==_iff id i).0 same) new
    | inr other ↦ old i (sym (get_elem?-set-other flags id i true (λ e. differs e other)) ∙ h)
  ]
    where
      differs : id ≡ i → (id == i) ≡ false → ⊥
      differs e h = ground arith

  -- A node that is no nearer than the last entry is only flagged.
  pub farther-IsExploring :
      (k n : ℕ) (retset : List (Neighbor D)) (flags : List Bool) (nk id : ℕ)
      → IsExploring k n retset flags nk
      → IsNoNearer lt compare base l query id retset
      → IsExploring k n retset (set flags id true) nk
  farther-IsExploring k n retset flags nk id x far = record {
    measured = x.measured;
    settled = λ i h. settled_with flags id i retset (inr far) x.settled h;
    expanded = λ i e w g f.
        IsExpanded-kept flags (set flags id true) n e.id (flag_stays flags id)
          (x.expanded i e w g f);
    passed = x.passed;
  }

  module _ (asym : (a b : D) → lt a b ≡ true → lt b a ≡ false)
      (chain : (a b c : D) → lt a b ≡ false → lt b c ≡ false → lt a c ≡ false) where
    -- A node that is inserted is flagged, and the search goes back to its place.
    pub inserted-IsExploring :
        (k n : ℕ) (retset : List (Neighbor D)) (flags : List Bool) (nk nk' r : ℕ) (nn : Neighbor D)
        (pool : List (Neighbor D)) (v : V)
        → l < length retset
        → IsSorted lt l retset
        → IsExploring k n retset flags nk
        → Outcome lt retset l nn r pool
        → get_elem? base nn.id ≡ some v
        → nn.distance ≡ compare query v
        → nn.flag ≡ true
        → nk' ≤ nk
        → nk' ≤ r
        → IsExploring k n pool (set flags nn.id true) nk'
    inserted-IsExploring k n retset flags nk nk' r nn pool v room sorted x o q d waits low low' =
        let (new, old) =
          Outcome-Settled lt asym chain compare base l query retset nn room sorted r pool v o q d
            x.measured in
        record {
          measured = λ i e v' w g q'. elim (Outcome-entries lt l retset nn r pool i e room o w g) [
            | inl is_new ↦ own_distance e v' is_new q'
            | inr (j, w', g') ↦ x.measured j e v' w' g' q'
          ];
          settled = λ i h. settled_with flags nn.id i pool new (λ i h. old i (x.settled i h)) h;
          expanded = λ i e w g f. elim (Outcome-entries lt l retset nn r pool i e room o w g) [
            | inl is_new ↦ absurd (waiting e is_new f)
            | inr (j, w', g') ↦
                IsExpanded-kept flags (set flags nn.id true) n e.id (flag_stays flags nn.id)
                  (x.expanded j e w' g' f)
          ];
          passed = λ i e w w' w'' g.
              x.passed i e w (omega arith) w''
                (sym (Outcome-before lt l retset nn r pool i o (omega arith) w) ∙ g);
        }
      where
        own_distance :
            (e : Neighbor D) (v' : V)
            → e ≡ nn
            → get_elem? base e.id ≡ some v'
            → e.distance ≡ compare query v'
        own_distance e v' is_new q' =
            let here : get_elem? base nn.id ≡ some v' =
              subst (λ e. get_elem? base e.id ≡ some v') is_new q' in
            ap (λ e. e.distance) is_new
            ∙ d
            ∙ ap (compare query) (some-injective v v' (sym q ∙ here))

        true_false : true ≡ false → ⊥
        true_false h = ground arith

        waiting : (e : Neighbor D) → e ≡ nn → e.flag ≡ false → ⊥
        waiting e is_new f = true_false (sym waits ∙ sym (ap (λ e. e.flag) is_new) ∙ f)
