-- ===== src/Nsg/Optimum/Reached.antt =====
-- What holds between two steps of a search.
use near_mem_nsg.Base.{
  ℕ, ◌-◌, ◌≤◌, ◌<◌, ◌≡◌, refl, sym, ap, subst, ◌∙◌, ◌≢◌, ◌⊎◌, inl, inr, Bool, true, false, Option,
  none, some, List, [], arith, leb, ◌==◌, leb→le, leb→lt, ==_iff, Bool-cases, Option-cases, length,
  get_elem?, set, All, length-set, get_elem?-lt, All-set, All-get_elem?, get_elem?-set-eq,
  get_elem?-set-other, lt-get_elem?,
}
use mathlib.Core.Option.{some-injective}
use near_mem_nsg.Nsg.Pool.{Neighbor}
use near_mem_nsg.Nsg.Pool.Sorted.{set-IsSorted}
use near_mem_nsg.Nsg.Graph.{Graph}
use near_mem_nsg.Nsg.GetData.{
  Expansion, Answer, next_position, visit_edges, expand, new_search_get_data,
}
use near_mem_nsg.Nsg.GetData.Total.{IsFit}
use near_mem_nsg.Nsg.GetData.Answers.{IsGraph, fresh}
use near_mem_nsg.Nsg.Optimum.{IsSettled, IsMeasured}
use near_mem_nsg.Nsg.Optimum.Exploring.{AreFlagged, IsExpanded, IsExploring}
use near_mem_nsg.Nsg.Optimum.Visit.{visit_edges-Explores}

-- An entry of a list in which one has been replaced.
pub entry-set :
    {A : Type 0} (xs : List A) (k i : ℕ) (y x : A)
    → k < length xs
    → get_elem? (set xs k y) i ≡ some x
    → ((i ≡ k) × (x ≡ y)) ⊎ ((i ≢ k) × (get_elem? xs i ≡ some x))
entry-set xs k i y x h g = elim (Bool-cases (k == i)) [
  | inl same ↦
      let at : k ≡ i = (==_iff k i).0 same in
      let stands : get_elem? (set xs k y) i ≡ some y =
        subst (λ j. get_elem? (set xs k y) j ≡ some y) at (get_elem?-set-eq xs k y h) in
      inl (sym at, some-injective x y (sym g ∙ stands))
  | inr other ↦
      let apart = differs other in
      inr ((λ e. apart (sym e)), sym (get_elem?-set-other xs k i y apart) ∙ g)
]
  where
    differs : (k == i) ≡ false → k ≢ i
    differs h e = ground arith

before_next : (nk k i : ℕ) → i < next_position nk k → i < nk
before_next nk k i w = ground arith

up_to : (nk k i : ℕ) → i < next_position nk k → i ≤ k
up_to nk k i w = ground arith

module _ {V D : Type 0} (lt : D → D → Bool) (compare : V → V → D) (base : List V) (l : ℕ)
    (g : Graph) (query : V) where
  -- Before the step for entry `k`: the flagged nodes are settled, the entries that do not wait are
  -- expanded, and none before `k` waits.
  pub record IsReached (k : ℕ) (retset : List (Neighbor D)) (flags : List Bool) : Type 0 where
    pub measured : IsMeasured lt compare base l query retset
    pub settled :
        (id : ℕ) → get_elem? flags id ≡ some true → IsSettled lt compare base l query id retset
    pub expanded :
        (i : ℕ) (e : Neighbor D)
        → i < l
        → get_elem? retset i ≡ some e
        → e.flag ≡ false
        → IsExpanded lt compare base l g query flags e.id
    pub passed :
        (i : ℕ) (e : Neighbor D) → i < l → i < k → get_elem? retset i ≡ some e → e.flag ≡ false

  module _ (k : ℕ) (retset : List (Neighbor D)) (flags : List Bool) (e : Neighbor D)
      (here : get_elem? retset k ≡ some e) where
    abbrev cleared : Neighbor D
    cleared = record e { flag = false }

    abbrev pool : List (Neighbor D)
    pool = set retset k cleared

    inside : k < length retset
    inside = lt-get_elem? retset k e here

    -- An entry has the id and the distance of the one that stood there.
    entry_before :
        (i : ℕ) (x : Neighbor D)
        → get_elem? pool i ≡ some x
        → (y : Neighbor D) × (get_elem? retset i ≡ some y)
          × (x.id ≡ y.id)
          × (x.distance ≡ y.distance)
    entry_before i x h = elim (entry-set retset k i cleared x inside h) [
      | inl (at, same) ↦ (e, rw at here, ap (λ e. e.id) same, ap (λ e. e.distance) same)
      | inr (apart, h') ↦ (x, h', refl, refl)
    ]

    Settled_cleared :
        (id : ℕ)
        → IsSettled lt compare base l query id retset
        → IsSettled lt compare base l query id pool
    Settled_cleared id (inl (i, x, w, h, own)) = elim (Bool-cases (k == i)) [
      | inl same ↦
          let at : k ≡ i = (==_iff k i).0 same in
          inl (
            i,
            cleared,
            w,
            subst (λ j. get_elem? pool j ≡ some cleared) at
                (get_elem?-set-eq retset k cleared inside),
            ap (λ e. e.id) (some-injective e x (sym here ∙ rw at h)) ∙ own,
          )
      | inr other ↦ inl (i, x, w, get_elem?-set-other retset k i cleared (differs other) ∙ h, own)
    ]
      where
        differs : (k == i) ≡ false → k ≢ i
        differs h e = ground arith
    Settled_cleared id (inr far) =
        inr
          (λ v last q h. let (y, h', same, d) = entry_before (l - 1) last h in rw d (far v y q h'))

    cleared-IsExploring :
        IsReached k retset flags → IsExploring lt compare base l g query k e.id pool flags l
    cleared-IsExploring x = record {
      measured = λ i y v w h q.
          let (z, h', same, d) = entry_before i y h in d ∙ x.measured i z v w h' (rw (← same) q);
      settled = λ id h. Settled_cleared id (x.settled id h);
      expanded = λ i y w h f. elim (entry-set retset k i cleared y inside h) [
        | inl (at, same) ↦ inl (ap (λ e. e.id) same)
        | inr (apart, h') ↦ inr (x.expanded i y w h' f)
      ];
      passed = λ i y w w' w'' h. elim (entry-set retset k i cleared y inside h) [
        | inl (at, same) ↦ ap (λ e. e.flag) same
        | inr (apart, h') ↦ x.passed i y w (strictly i w'' apart) h'
      ];
    }
      where
        strictly : (i : ℕ) → i ≤ k → i ≢ k → i < k
        strictly i w n = elim (Bool-cases (i == k)) [
          | inl same ↦ absurd (n ((==_iff i k).0 same))
          | inr other ↦ ground arith
        ]

  -- When all edges of `n` have their flags, nothing is left of the round.
  explored-IsReached :
      (k n nk : ℕ) (retset : List (Neighbor D)) (flags : List Bool) (edges : List ℕ)
      → IsExploring lt compare base l g query k n retset flags nk
      → get_elem? g.final_graph n ≡ some edges
      → AreFlagged flags edges
      → IsReached (next_position nk k) retset flags
  explored-IsReached k n nk retset flags edges x h all = record {
    measured = x.measured;
    settled = x.settled;
    expanded = λ i e w q f. elim (x.expanded i e w q f) [
      | inl same ↦ λ edges' h'.
          subst (AreFlagged flags)
            (some-injective edges edges'
              (sym h ∙ subst (λ m. get_elem? g.final_graph m ≡ some edges') same h'))
            all
      | inr done ↦ done
    ];
    passed = λ i e w w' q. x.passed i e w (before_next nk k i w') (up_to nk k i w') q;
  }

module _ {V D : Type 0} (lt : D → D → Bool) (asym : (a b : D) → lt a b ≡ true → lt b a ≡ false)
    (chain : (a b c : D) → lt a b ≡ false → lt b c ≡ false → lt a c ≡ false) (compare : V → V → D)
    (base : List V) (l : ℕ) (pos : 0 < l) (g : Graph) (graph : IsGraph g)
    (vectors : g.nd ≤ length base) (query : V) where
  abbrev Fit : Expansion D → Type 0
  Fit = IsFit lt asym compare base l g.nd pos vectors

  abbrev Reached : ℕ → List (Neighbor D) → List Bool → Type 0
  Reached = IsReached lt compare base l g query

  expand_visits :
      (k : ℕ) (e : Neighbor D) (s : Expansion D) (edges : List ℕ)
      → get_elem? g.final_graph e.id ≡ some edges
      → expand lt compare base l g query k e s
        ≡ visit_edges lt compare base l query edges
            (record s { retset = set s.retset k (record e { flag = false }) })
  unfolding expand
  expand_visits k e s edges h = rw h refl

  expand-Reached :
      (k : ℕ) (e : Neighbor D) (s t : Expansion D)
      → get_elem? s.retset k ≡ some e
      → s.nk ≡ l
      → Fit s
      → Reached k s.retset s.flags
      → expand lt compare base l g query k e s ≡ some t
      → Reached (next_position t.nk k) t.retset t.flags
  expand-Reached k e s t here start fit x q =
      let own = All-get_elem? (λ e. e.id < g.nd) s.retset k e fit.ids here in
      let (edges, h) = get_elem?-lt g.final_graph e.id (omega (arith, graph.lists)) in
      let fit' : Fit cleared_state = record {
        room =
            subst (λ n. l < n) (sym (length-set s.retset k (record e { flag = false }))) fit.room;
        nodes = fit.nodes;
        ids = All-set (λ e. e.id < g.nd) s.retset k (record e { flag = false }) own fit.ids;
        sorted = set-IsSorted lt l s.retset k e (record e { flag = false }) here refl fit.sorted;
      } in
      let (u, q', fit'', x', all, keeps) =
        visit_edges-Explores lt asym chain compare base l pos g vectors query k e.id edges
          cleared_state
          (All-get_elem? (All (λ id. id < g.nd)) g.final_graph e.id edges graph.edges h) fit'
          (rw start (cleared-IsExploring lt compare base l g query k s.retset s.flags e here x)) in
      let same : u ≡ t = some-injective u t (sym q' ∙ sym (expand_visits k e s edges h) ∙ q) in
      subst (λ u. Reached (next_position u.nk k) u.retset u.flags) same
        (explored-IsReached lt compare base l g query k e.id u.nk u.retset u.flags edges x' h all)
    where
      cleared_state : Expansion D
      cleared_state = record s { retset = set s.retset k (record e { flag = false }) }

  -- What an answer has reached: the position that it gives, or the end.
  abbrev pub Arrives : Answer D → Type 0
  Arrives a =
      (a.next_k ≡ none → Reached l a.retset a.flags)
      × ((k' : ℕ) → a.next_k ≡ some k' → Reached k' a.retset a.flags)

  Reached-end :
      (k : ℕ) (retset : List (Neighbor D)) (flags : List Bool)
      → l ≤ k
      → Reached k retset flags
      → Reached l retset flags
  Reached-end k retset flags h x = record {
    measured = x.measured;
    settled = x.settled;
    expanded = x.expanded;
    passed = λ i e w w'. x.passed i e w (omega arith);
  }

  -- An entry that does not wait is passed.
  Reached-next :
      (k : ℕ) (retset : List (Neighbor D)) (flags : List Bool) (e : Neighbor D)
      → k < l
      → get_elem? retset k ≡ some e
      → e.flag ≡ false
      → Reached k retset flags
      → Reached (next_position l k) retset flags
  Reached-next k retset flags e h here done x = record {
    measured = x.measured;
    settled = x.settled;
    expanded = x.expanded;
    passed = λ i y w w' q. elim (Bool-cases (i == k)) [
      | inl at ↦ ground arith
      | inr other ↦ x.passed i y w (ground arith) q
    ];
  }

  Arrives-at :
      (k' : ℕ) (a : Answer D) → a.next_k ≡ some k' → Reached k' a.retset a.flags → Arrives a
  Arrives-at k' a h x = (
    λ e. absurd (ground arith),
    λ j e. subst (λ j. Reached j a.retset a.flags) (some-injective k' j (sym h ∙ e)) x,
  )

  -- A step for entry `k` reaches the position that it answers; where it answers -1, no entry waits.
  pub get_data-Reached :
      (k edge : ℕ) (retset : List (Neighbor D)) (flags : List Bool) (a : Answer D)
      → Fit (fresh lt asym compare base l pos g graph vectors retset flags)
      → Reached k retset flags
      → new_search_get_data lt compare base l g query k edge retset flags [] [] ≡ some a
      → Arrives a
  unfolding new_search_get_data
  get_data-Reached k edge retset flags a fit x q = elim (Bool-cases (leb l k)) [
    | inl over ↦
        let same : unchanged none ≡ a = ground arith in
        subst Arrives same
          (λ _. Reached-end k retset flags (leb→le l k over) x, λ k' e. absurd (ground arith))
    | inr under ↦
        let (e, h) = get_elem?-lt retset k (ground (arith, fit.room)) in
        elim (Bool-cases e.flag) [
          | inr done ↦
              let same : unchanged (some (next_position l k)) ≡ a = ground arith in
              subst Arrives same (
                Arrives-at (next_position l k) (unchanged (some (next_position l k))) refl
                  (Reached-next k retset flags e (leb→lt l k under) h done x))
          | inl waits ↦ elim (Option-cases (expand lt compare base l g query k e start)) [
            | inl fault ↦ absurd (ground arith)
            | inr (t, q') ↦
                let same : answered e t ≡ a = ground arith in
                subst Arrives same (
                  Arrives-at (next_position t.nk k) (answered e t) refl
                    (expand-Reached k e start t h refl fit x q'))
          ]
        ]
  ]
    where
      start : Expansion D
      start = fresh lt asym compare base l pos g graph vectors retset flags

      unchanged : Option ℕ → Answer D
      unchanged next = record {
        next_k = next;
        retset = retset;
        flags = flags;
        edge_table_id = edge;
        target_ids = [];
        compare_latency = [];
      }

      answered : Neighbor D → Expansion D → Answer D
      answered e t = record {
        next_k = some (next_position t.nk k);
        retset = t.retset;
        flags = t.flags;
        edge_table_id = e.id;
        target_ids = t.target_ids;
        compare_latency = t.compare_latency;
      }
