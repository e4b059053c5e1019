-- ===== src/Sim/Index/Step.antt =====
-- A step of the search by an engine of src/qe.cc, on the globals of bins/simulation.cc.
use near_mem_nsg.Base.{
  ℕ, ◌+◌, ◌*◌, ◌^◌, ◌≤◌, ◌<◌, ◌≡◌, refl, sym, ap, subst, ◌∙◌, ◌⊎◌, inl, inr, Bool, true, false,
  Option, none, some, List, [], ◌∷◌, arith, length, get_elem?, get_elem?-lt, All-get_elem?,
  lt-get_elem?,
}
use near_mem_nsg.Struct.{query_get_data, query_pending_edge, query_finish}
use near_mem_nsg.Mapping.{int, cacheline_size}
use near_mem_nsg.Nsg.Pool.{Neighbor}
use near_mem_nsg.Nsg.Graph.{Graph, get_size_and_addr}
use near_mem_nsg.Nsg.GetData.{Answer}
use near_mem_nsg.Nsg.GetData.Answers.{IsGood, get_data-IsGood}
use near_mem_nsg.Nsg.GetData.Targets.{get_data-targets}
use near_mem_nsg.Qe.{Config, Index, Engine}
use near_mem_nsg.Qe.GetData
use near_mem_nsg.Qe.GetData.{by_step}
use near_mem_nsg.Qe.Issue.{issue-fits}
use near_mem_nsg.Files.Vectors.{vector_at-in_range}
use near_mem_nsg.Sim.Setup.{Globals}
use near_mem_nsg.Sim.Index.{global_index, engine_globals, edge_table, ask, step_of}
use near_mem_nsg.Sim.Index.Sound.{IsSetUp, IsSmall, Searching, IsSound, sound}
use near_mem_nsg.Nsg.Optimum.Reached.{IsReached, get_data-Reached}
use near_mem_nsg.Nsg.Optimum.Found.{Reached-IsOptimum}
use near_mem_nsg.Nsg.Steps.Ends.{FitPool}

-- The size of an edge list that `GetSizeAndAddr` gives.
edge_table_size :
    (g : Graph) (id : ℕ) (edges : List ℕ)
    → get_elem? g.final_graph id ≡ some edges
    → id < length g.accumulate_nsg_size
    → length edges * 4 < 2 ^ 31
    → (edge_table g).edge_size id ≡ length edges * 4
unfolding edge_table get_size_and_addr int
edge_table_size g id edges h own small =
    let (end, h') = get_elem?-lt g.accumulate_nsg_size id own in ground (arith, h, h')

module _ {D : Type 0} (lt : D → D → Bool) (asym : (a b : D) → lt a b ≡ true → lt b a ≡ false)
    (chain : (a b c : D) → lt a b ≡ false → lt b c ≡ false → lt a c ≡ false)
    (compare : List ℕ → List ℕ → D) (sort : List (Neighbor D) → List (Neighbor D)) (l : ℕ)
    (unset : Neighbor D) (w : Globals D) (setup : IsSetUp l unset w) (small : IsSmall w) where
  abbrev E : Type 0
  E = Engine (Option (List (Neighbor D))) (List Bool)

  abbrev cfg : Config (Option (List (Neighbor D))) (List Bool)
  cfg = engine_globals lt compare sort l w

  abbrev index : Index (Option (List (Neighbor D))) (List Bool)
  index = global_index lt compare sort l w

  abbrev Succeeds : Option (Bool × E) → Type 0
  Succeeds o =
      (b : Bool) × (e' : E) × (o ≡ some (b, e'))
      × IsSound lt asym chain compare l unset w setup e'.qe

  abbrev Fit : List (Neighbor D) → List Bool → Type 0
  Fit = FitPool lt asym compare w.base.rows l setup.pos w.index setup.graph setup.vectors

  abbrev Reached : List ℕ → ℕ → List (Neighbor D) → List Bool → Type 0
  Reached query = IsReached lt compare w.base.rows l w.index query

  -- The reads of a step with targets.
  reads_small :
      (edge : ℕ) (edges targets : List ℕ)
      → get_elem? w.index.final_graph edge ≡ some edges
      → length targets ≤ length edges
      → ((edge_table w.index).edge_size edge + cacheline_size < 2 ^ 31)
        × (length targets * (w.base.dim * w.global_sizeof + cacheline_size) < 2 ^ 31)
  reads_small edge edges targets h few =
      let lists =
        All-get_elem? (λ es. length es * 4 + cacheline_size < 2 ^ 31) w.index.final_graph edge edges
          small.lists h in
      let reads =
        All-get_elem? (λ es. length es * (w.base.dim * w.global_sizeof + cacheline_size) < 2 ^ 31)
          w.index.final_graph edge edges small.reads h in
      let own : edge < length w.index.accumulate_nsg_size =
        omega
          (arith, lt-get_elem? w.index.final_graph edge edges h, setup.graph.lists, small.sizes) in
      let size = edge_table_size w.index edge edges h own (omega arith) in
      (omega (arith, size), grind (arith, reads))

  module _ (now : ℕ) (e : E) (query : List ℕ) (k : ℕ) (pool : List (Neighbor D)) (flags : List Bool)
      (a : Answer D) (same : e.qe.query_state ≡ query_get_data)
      (room : l ≤ length e.qe.init_dc_state)
      (vector : get_elem? w.query.rows e.qe.query_id ≡ some query)
      (good : IsGood lt asym compare w.base.rows l setup.pos w.index setup.graph setup.vectors k
        pool flags a)
      (ends : a.next_k ≡ none → Reached query l a.retset a.flags)
      (goes : (k' : ℕ) → a.next_k ≡ some k' → Reached query k' a.retset a.flags)
      (few : (a.target_ids ≡ [])
        ⊎ ((edges : List ℕ) × (get_elem? w.index.final_graph a.edge_table_id ≡ some edges)
            × (length a.target_ids ≤ length edges))) where
    by_answer :
        (k' : Option ℕ) (ids : List ℕ)
        → a.next_k ≡ k'
        → a.target_ids ≡ ids
        → Succeeds (by_step cfg index now e (step_of (some a)) k' ids)
    unfolding by_step step_of global_index
    by_answer none ids next targets = (
      true,
      _,
      refl,
      sound lt asym chain compare l unset w setup _ query_finish refl room (
          inr (record {
            pool = a.retset;
            query = query;
            retset = refl;
            vector = vector;
            sorted = good.fit.sorted;
            measured = (ends next).measured;
            optimum =
                Reached-IsOptimum lt asym chain compare w.base.rows l setup.pos w.index setup.graph
                  setup.vectors query a.retset a.flags (ends next);
          })),
    )
    by_answer (some k') [] next targets = (
      true,
      _,
      refl,
      sound lt asym chain compare l unset w setup _ query_get_data same room (
        k',
        next,
        record {
          pool = a.retset;
          query = query;
          retset = refl;
          vector = vector;
          fit = good.fit;
          reached = goes k' next;
        },
      ),
    )
    by_answer (some k') (id ∷ ids) next targets =
        let (edges, h, fewer) = expanded in
        let (edges_room, vectors_room) = reads_small a.edge_table_id edges a.target_ids h fewer in
        let (b, e', q, i) =
          issue-fits cfg index now e (step_of (some a)) good.paired edges_room vectors_room in
        (
          b,
          e',
          q,
          sound lt asym chain compare l unset w setup e'.qe query_pending_edge i.state
              (subst (λ s. l ≤ length s) (sym i.states) room)
              (
                k',
                i.while_k ∙ next,
                record {
                  pool = a.retset;
                  query = query;
                  retset = i.retset;
                  vector = ap (get_elem? w.query.rows) i.query_id ∙ vector;
                  fit = subst (Fit a.retset) (sym i.flags) good.fit;
                  reached = subst (Reached query k' a.retset) (sym i.flags) (goes k' next);
                },
              ),
        )
      where
        expanded :
            (edges : List ℕ) × (get_elem? w.index.final_graph a.edge_table_id ≡ some edges)
            × (length a.target_ids ≤ length edges)
        expanded = elim few [ inl none_left ↦ absurd (ground arith) | inr some_left ↦ some_left ]

  -- An engine that has a pool and a position asks the index for the next step, which answers; it
  -- then ends the search, goes on to the next step, or has reads to wait for.
  pub get_data-Succeeds :
      (now : ℕ) (e : E)
      → e.qe.query_state ≡ query_get_data
      → l ≤ length e.qe.init_dc_state
      → Searching lt asym chain compare l unset w setup e.qe
      → Succeeds (GetData.query_get_data cfg index now e)
  unfolding GetData.query_get_data global_index ask step_of
  get_data-Succeeds now e same room (k, at, s) =
      let (a, h, good) =
        get_data-IsGood lt asym compare w.base.rows l setup.pos w.index setup.graph setup.vectors
          s.query k e.qe.edge_table_id s.pool e.qe.flags s.fit in
      let (ends, goes) =
        get_data-Reached lt asym chain compare w.base.rows l setup.pos w.index setup.graph
          setup.vectors s.query k e.qe.edge_table_id s.pool e.qe.flags a s.fit s.reached h in
      let asked : ask lt compare sort l w e.qe.retset e.qe.flags e.qe.query_id e.qe.while_k
            e.qe.edge_table_id
          ≡ some a =
        rw
          (
            s.retset,
            vector_at-in_range w.base.dim w.query.rows e.qe.query_id s.query setup.even setup.range
                s.vector,
            at,
          )
          h in
      subst
        (λ o.
          Succeeds (by_step cfg index now e (step_of o) (step_of o).next_k (step_of o).target_ids))
        (sym asked)
        (by_answer now e s.query k s.pool e.qe.flags a same room s.vector good ends goes
          (get_data-targets lt compare w.base.rows l w.index s.query k e.qe.edge_table_id s.pool
            e.qe.flags a h)
          a.next_k a.target_ids refl refl)
