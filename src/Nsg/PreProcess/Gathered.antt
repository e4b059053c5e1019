-- ===== src/Nsg/PreProcess/Gathered.antt =====
-- The initial ids that `PreProcess` of deps/nsg/src/index_nsg.cpp gathers.
use near_mem_nsg.Base.{
  ℕ, zero, suc, ◌+◌, ◌%◌, ◌≤◌, ◌<◌, ◌≡◌, refl, sym, ap, subst, ◌∙◌, ◌≢◌, ◌⊎◌, inl, inr, Bool, true,
  false, Option, some, List, [], ◌∷◌, ◌++◌, arith, ltb, ◌==◌, ltb→lt, ==_iff, Bool-cases, length,
  get_elem?, set, take, All, length-set, get_elem?-lt, All-append, All-get_elem?, get_elem?-set-eq,
  get_elem?-set-other, lt-get_elem?,
}
use near_mem_nsg.Nsg.Pool.{write}
use near_mem_nsg.Nsg.Graph.{Graph}
use near_mem_nsg.Nsg.Potential.{unseen, unseen-set, flag_stays}
use near_mem_nsg.Nsg.GetData.Answers.{IsGraph}
use near_mem_nsg.Nsg.PreProcess.{
  Gather, gather, gather_all, gather_new, gather_edges, gather_nodes, gather_random,
}

-- No id stands twice.
abbrev pub IsDistinct : List ℕ → Type 0
IsDistinct [] = Unit
IsDistinct (x ∷ xs) = All (λ y. x ≢ y) xs × IsDistinct xs

IsDistinct-append :
    (xs : List ℕ) (y : ℕ) → IsDistinct xs → All (λ x. x ≢ y) xs → IsDistinct (xs ++ y ∷ [])
IsDistinct-append [] y d h = (tt, tt)
IsDistinct-append (x ∷ xs) y d h =
    (All-append (λ z. x ≢ z) xs (y ∷ []) d.0 (h.0, tt), IsDistinct-append xs y d.1 h.1)

-- An id stands in a list.
abbrev pub IsIn : ℕ → List ℕ → Type 0
IsIn id [] = ⊥
IsIn id (x ∷ xs) = (id ≡ x) ⊎ IsIn id xs

IsIn-append : (id : ℕ) (xs ys : List ℕ) → IsIn id xs ⊎ IsIn id ys → IsIn id (xs ++ ys)
IsIn-append id [] ys (inl h) = absurd h
IsIn-append id [] ys (inr h) = h
IsIn-append id (x ∷ xs) ys (inl (inl e)) = inl e
IsIn-append id (x ∷ xs) ys (inl (inr h)) = inr (IsIn-append id xs ys (inl h))
IsIn-append id (x ∷ xs) ys (inr h) = inr (IsIn-append id xs ys (inr h))

IsIn-flagged :
    (flags : List Bool) (id i : ℕ) (ids : List ℕ)
    → ((i : ℕ) → get_elem? flags i ≡ some true → IsIn i ids)
    → get_elem? (set flags id true) i ≡ some true
    → IsIn i (ids ++ id ∷ [])
IsIn-flagged flags id i ids old h = elim (Bool-cases (i == id)) [
  | inl same ↦ IsIn-append i ids (id ∷ []) (inr (inl ((==_iff i id).0 same)))
  | inr other ↦
      IsIn-append i ids (id ∷ [])
        (inl (old i (sym (get_elem?-set-other flags id i true (differs other)) ∙ h)))
]
  where
    differs : (i == id) ≡ false → id ≢ i
    differs h e = ground arith

take-set : (xs : List ℕ) (i v : ℕ) → i < length xs → take (suc i) (set xs i v) ≡ take i xs ++ v ∷ []
take-set [] i v h = absurd (omega arith)
take-set (x ∷ xs) zero v h = refl
take-set (x ∷ xs) (suc i) v h = ap (λ ys. x ∷ ys) (take-set xs i v (omega arith))

module _ (l nd : ℕ) where
  -- So far: ids of nodes, each flagged and none twice.
  pub record IsGathered (s : Gather) : Type 0 where
    pub room : s.tmp_l ≤ l
    pub slots : length s.init_ids ≡ l
    pub nodes : length s.flags ≡ nd
    pub flagged : All (λ id. get_elem? s.flags id ≡ some true) (take s.tmp_l s.init_ids)
    pub distinct : IsDistinct (take s.tmp_l s.init_ids)
    pub counted : s.tmp_l + unseen s.flags ≡ nd
    pub only : (id : ℕ) → get_elem? s.flags id ≡ some true → IsIn id (take s.tmp_l s.init_ids)

  abbrev Gathers : Option Gather → Type 0
  Gathers o = (t : Gather) × (o ≡ some t) × IsGathered t

  flagged-set :
      (flags : List Bool) (id : ℕ) (ids : List ℕ)
      → All (λ i. get_elem? flags i ≡ some true) ids
      → All (λ i. get_elem? (set flags id true) i ≡ some true) ids
  flagged-set flags id [] h = tt
  flagged-set flags id (i ∷ ids) h = (flag_stays flags id i h.0, flagged-set flags id ids h.1)

  not-flagged :
      (flags : List Bool) (id : ℕ) (ids : List ℕ)
      → get_elem? flags id ≡ some false
      → All (λ i. get_elem? flags i ≡ some true) ids
      → All (λ i. i ≢ id) ids
  not-flagged flags id [] f h = tt
  not-flagged flags id (i ∷ ids) f h = (λ e. absurd (ground arith), not-flagged flags id ids f h.1)

  pub gather_lem :
      (id : ℕ) (s : Gather)
      → s.tmp_l < l
      → get_elem? s.flags id ≡ some false
      → IsGathered s
      → (t : Gather) × (gather id s ≡ some t)
        × IsGathered t
        × (t.flags ≡ set s.flags id true)
        × (t.tmp_l ≡ s.tmp_l + 1)
  unfolding gather write
  gather_lem id s more fresh ok =
      let one : s.tmp_l + 1 ≡ suc s.tmp_l = omega arith in
      let after : take (s.tmp_l + 1) (set s.init_ids s.tmp_l id)
          ≡ take s.tmp_l s.init_ids ++ id ∷ [] =
        subst (λ n. take n (set s.init_ids s.tmp_l id) ≡ take s.tmp_l s.init_ids ++ id ∷ [])
          (sym one) (take-set s.init_ids s.tmp_l id (omega (arith, ok.slots))) in
      (
        record {
          init_ids = set s.init_ids s.tmp_l id;
          tmp_l = s.tmp_l + 1;
          flags = set s.flags id true;
        },
        ground (arith, lt-get_elem? s.flags id false fresh, ok.slots),
        record {
          room = omega arith;
          slots = length-set s.init_ids s.tmp_l id ∙ ok.slots;
          nodes = length-set s.flags id true ∙ ok.nodes;
          flagged = rw (after) (
              All-append (λ i. get_elem? (set s.flags id true) i ≡ some true)
                (take s.tmp_l s.init_ids) (id ∷ [])
                (flagged-set s.flags id (take s.tmp_l s.init_ids) ok.flagged)
                (get_elem?-set-eq s.flags id true (lt-get_elem? s.flags id false fresh), tt));
          distinct = rw (after) (
              IsDistinct-append (take s.tmp_l s.init_ids) id ok.distinct
                (not-flagged s.flags id (take s.tmp_l s.init_ids) fresh ok.flagged));
          counted = omega (arith, unseen-set s.flags id fresh, ok.counted);
          only = λ i h. rw (after) (IsIn-flagged s.flags id i (take s.tmp_l s.init_ids) ok.only h);
        },
        refl,
        refl,
      )

  -- The ids that are still to come have no flag.
  abbrev IsFresh : List Bool → List ℕ → Type 0
  IsFresh flags = All (λ id. get_elem? flags id ≡ some false)

  IsFresh-set :
      (flags : List Bool) (id : ℕ) (ids : List ℕ)
      → All (λ i. id ≢ i) ids
      → IsFresh flags ids
      → IsFresh (set flags id true) ids
  IsFresh-set flags id [] d f = tt
  IsFresh-set flags id (i ∷ ids) d f =
      (get_elem?-set-other flags id i true d.0 ∙ f.0, IsFresh-set flags id ids d.1 f.1)

  pub gather_all_lem :
      (ids : List ℕ) (s : Gather)
      → s.tmp_l + length ids ≤ l
      → IsDistinct ids
      → IsFresh s.flags ids
      → IsGathered s
      → (t : Gather) × (gather_all ids s ≡ some t) × IsGathered t × (t.tmp_l ≡ s.tmp_l + length ids)
  unfolding gather_all
  gather_all_lem [] s more d f ok = (s, refl, ok, omega arith)
  gather_all_lem (id ∷ ids) s more d f ok =
      let (t, q, ok', flags, n) = gather_lem id s (omega arith) f.0 ok in
      let (u, q', ok'', n') =
        gather_all_lem ids t (omega (arith, n)) d.1
          (subst (λ b. IsFresh b ids) (sym flags) (IsFresh-set s.flags id ids d.0 f.1)) ok' in
      (u, rw q q', ok'', omega arith)

  -- An id that may have been seen: it is added if not, and at most it.
  gather_new_lem :
      (id : ℕ) (s : Gather) → s.tmp_l < l → id < nd → IsGathered s → Gathers (gather_new id s)
  unfolding gather_new
  gather_new_lem id s more own ok =
      let (b, g) = get_elem?-lt s.flags id (omega (arith, ok.nodes)) in
      elim (Bool-cases b) [
        | inl seen ↦ (s, rw (g, seen) refl, ok)
        | inr fresh ↦
            let (t, q, ok', flags, n) = gather_lem id s more (g ∙ ap some fresh) ok in
            (t, rw (g, fresh) q, ok')
      ]

  gather_edges_lem :
      (ids : List ℕ) (s : Gather)
      → s.tmp_l < l
      → All (λ id. id < nd) ids
      → IsGathered s
      → Gathers (gather_edges l ids s)
  unfolding gather_edges
  gather_edges_lem [] s more own ok = (s, refl, ok)
  gather_edges_lem (id ∷ ids) s more own ok =
      let (t, q, ok') = gather_new_lem id s more own.0 ok in
      elim (Bool-cases (t.tmp_l == l)) [
        | inl full ↦ (t, ground (arith, q), ok')
        | inr room ↦
            let (u, q', ok'') = gather_edges_lem ids t (ground (arith, ok'.room)) own.1 ok' in
            (u, ground (arith, q, q'), ok'')
      ]

  pub gather_nodes_lem :
      (g : Graph) (ns : List ℕ) (s : Gather)
      → IsGraph g
      → g.nd ≡ nd
      → s.tmp_l < l
      → All (λ id. id < nd) ns
      → IsGathered s
      → Gathers (gather_nodes l g ns s)
  unfolding gather_nodes
  gather_nodes_lem g [] s graph same more own ok = (s, refl, ok)
  gather_nodes_lem g (n ∷ ns) s graph same more own ok =
      let (edges, h) = get_elem?-lt g.final_graph n (omega (arith, graph.lists, own.0)) in
      let inside =
        subst (λ k. All (λ id. id < k) edges) same
          (All-get_elem? (All (λ id. id < g.nd)) g.final_graph n edges graph.edges h) in
      let (t, q, ok') = gather_edges_lem edges s more inside ok in
      elim (Bool-cases (t.tmp_l == l)) [
        | inl full ↦ (t, ground (arith, h, q), ok')
        | inr room ↦
            let (u, q', ok'') =
              gather_nodes_lem g ns t graph same (ground (arith, ok'.room)) own.1 ok' in
            (u, ground (arith, h, q, q'), ok'')
      ]

  pub gather_random_lem :
      (draws : List ℕ) (s : Gather) → 0 < nd → IsGathered s → Gathers (gather_random l nd draws s)
  unfolding gather_random
  gather_random_lem [] s pos ok = (s, refl, ok)
  gather_random_lem (r ∷ rs) s pos ok = elim (Bool-cases (ltb s.tmp_l l)) [
    | inr full ↦ (s, rw full refl, ok)
    | inl more ↦
        let (t, q, ok') = gather_new_lem (r % nd) s (ltb→lt s.tmp_l l more) (omega arith) ok in
        let (u, q', ok'') = gather_random_lem rs t pos ok' in (u, ground (arith, q, q'), ok'')
  ]
