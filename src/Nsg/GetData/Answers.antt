-- ===== src/Nsg/GetData/Answers.antt =====
-- The answers of `NewSearchGetData` on a well-formed state.
use near_mem_nsg.Base.{
  ℕ, ◌+◌, ◌-◌, ◌*◌, ◌≤◌, ◌<◌, ◌≡◌, refl, sym, subst, inl, inr, Bool, true, false, none, some, List,
  [], arith, leb, leb→le, Bool-cases, length, get_elem?, set, All, length-set, get_elem?-lt,
  All-set, All-get_elem?,
}
use near_mem_nsg.Nsg.Pool.{Neighbor}
use near_mem_nsg.Nsg.Pool.Sorted.{set-IsSorted}
use near_mem_nsg.Nsg.Potential.{active-expanded}
use near_mem_nsg.Nsg.Graph.{Graph}
use near_mem_nsg.Nsg.GetData.{Expansion, Answer, next_position, expand, new_search_get_data}
use near_mem_nsg.Nsg.GetData.Total.{IsFit, Advances, potential, visit_edges_lem}

-- A graph of `nd` nodes, with edges between these.
pub record IsGraph (g : Graph) : Type 0 where
  pub lists : length g.final_graph ≡ g.nd
  pub edges : All (All (λ id. id < g.nd)) g.final_graph

rank_drop : (p q l k k' : ℕ) → q < p → q * (l + 1) + (l - k') < p * (l + 1) + (l - k)
rank_drop p q l k k' h = grind arith

module _ {V D : Type 0} (lt : D → D → Bool) (asym : (a b : D) → lt a b ≡ true → lt b a ≡ false)
    (compare : V → V → D) (base : List V) (l : ℕ) (pos : 0 < l) (g : Graph) (graph : IsGraph g)
    (vectors : g.nd ≤ length base) where
  abbrev Fit : Expansion D → Type 0
  Fit = IsFit lt asym compare base l g.nd pos vectors

  abbrev Grows : Expansion D → Expansion D → Type 0
  Grows = Advances lt asym compare base l g.nd pos vectors

  abbrev pot : Expansion D → ℕ
  pot = potential lt asym compare base l g.nd pos vectors

  expand_lem :
      (query : V) (k : ℕ) (e : Neighbor D) (s : Expansion D)
      → get_elem? s.retset k ≡ some e
      → e.flag ≡ true
      → Fit s
      → (t : Expansion D) × (expand lt compare base l g query k e s ≡ some t)
        × Fit t
        × (pot t < pot s)
        × (length t.target_ids + length s.compare_latency
            ≡ length s.target_ids + length t.compare_latency)
  unfolding expand
  expand_lem query k e s h f fit =
      let own = All-get_elem? (λ e. e.id < g.nd) s.retset k e fit.ids h in
      let (edges, q) = get_elem?-lt g.final_graph e.id (omega (arith, graph.lists)) in
      let one = active-expanded s.retset k e h f in
      let fit' : Fit cleared = record {
        room =
            subst (λ n. l < n) (sym (length-set s.retset k (record e { flag = false }))) fit.room;
        nodes = fit.nodes;
        ids = All-set (λ e. e.id < g.nd) s.retset k (record e { flag = false }) own fit.ids;
        sorted = set-IsSorted lt l s.retset k e (record e { flag = false }) h refl fit.sorted;
      } in
      let (t, q', a) =
        visit_edges_lem lt asym compare base l g.nd pos vectors query edges cleared
          (All-get_elem? (All (λ id. id < g.nd)) g.final_graph e.id edges graph.edges q) fit' in
      (t, rw q q', a.fit, omega (arith, a.descends), a.paired)
    where
      cleared : Expansion D
      cleared = record s { retset = set s.retset k (record e { flag = false }) }

  -- A pool and its flags, as a state that has no targets yet.
  abbrev pub fresh : List (Neighbor D) → List Bool → Expansion D
  fresh retset flags = record {
    retset = retset;
    flags = flags;
    nk = l;
    target_ids = [];
    compare_latency = [];
  }

  -- How many more steps a search can take: at most `L + 1` between two that expand a node.
  abbrev pub rank : ℕ → List (Neighbor D) → List Bool → ℕ
  rank k retset flags = pot (fresh retset flags) * (l + 1) + (l - k)

  -- An answer that keeps the state well-formed, has a latency for each target, and if it is not the
  -- last has brought the search nearer to its end.
  pub record IsGood (k : ℕ) (retset : List (Neighbor D)) (flags : List Bool) (a : Answer D)
      : Type 0 where
    pub fit : Fit (fresh a.retset a.flags)
    pub paired : length a.target_ids ≡ length a.compare_latency
    pub nearer : (k' : ℕ) → a.next_k ≡ some k' → rank k' a.retset a.flags < rank k retset flags
    pub ends : a.next_k ≡ none → l ≤ k

  -- On a well-formed graph, with a vector for each node, and a well-formed state, `NewSearchGetData`
  -- answers: with a state that is well-formed again and sorted, with as many latencies as targets,
  -- and with -1 only where `k` has reached `L`; any other answer lowers the rank of the search.
  pub get_data-IsGood :
      (query : V) (k edge : ℕ) (retset : List (Neighbor D)) (flags : List Bool)
      → Fit (fresh retset flags)
      → (a : Answer D) × (new_search_get_data lt compare base l g query k edge retset flags [] []
          ≡ some a)
        × IsGood k retset flags a
  unfolding new_search_get_data
  get_data-IsGood query k edge retset flags fit = elim (Bool-cases (leb l k)) [
    | inl over ↦ (
      record {
        next_k = none;
        retset = retset;
        flags = flags;
        edge_table_id = edge;
        target_ids = [];
        compare_latency = [];
      },
      rw over refl,
      record {
        fit = fit;
        paired = refl;
        nearer = λ k' e. absurd (ground arith);
        ends = λ e. leb→le l k over;
      },
    )
    | inr under ↦
        let (e, h) = get_elem?-lt retset k (ground (arith, fit.room)) in
        elim (Bool-cases e.flag) [
          | inl waits ↦
              let (t, q, f, d, p) = expand_lem query k e (fresh retset flags) h waits fit in
              (
                record {
                  next_k = some (next_position t.nk k);
                  retset = t.retset;
                  flags = t.flags;
                  edge_table_id = e.id;
                  target_ids = t.target_ids;
                  compare_latency = t.compare_latency;
                },
                rw (under, h, waits, q) refl,
                record {
                  fit = record { room = f.room; nodes = f.nodes; ids = f.ids; sorted = f.sorted };
                  paired = omega (arith, p);
                  nearer = λ k' e. rank_drop (pot (fresh retset flags)) (pot t) l k k' d;
                  ends = λ e. absurd (ground arith);
                },
              )
          | inr done ↦ (
            record {
              next_k = some (next_position l k);
              retset = retset;
              flags = flags;
              edge_table_id = edge;
              target_ids = [];
              compare_latency = [];
            },
            rw (under, h, done) refl,
            record {
              fit = fit;
              paired = refl;
              nearer = λ k' e. ground arith;
              ends = λ e. absurd (ground arith);
            },
          )
        ]
  ]
