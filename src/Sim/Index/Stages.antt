-- ===== src/Sim/Index/Stages.antt =====
-- What each state of an engine of src/qe.cc makes of a sound engine on the globals of
-- bins/simulation.cc.
use near_mem_nsg.Base.{
  ℕ, ◌+◌, ◌≤◌, ◌<◌, ◌≡◌, refl, sym, ap, subst, ◌∙◌, ◌≢◌, inl, inr, Bool, true, false, Option, none,
  some, List, arith, Option-cases, length, get_elem?, replicate, length-replicate, get_elem?-lt,
}
use near_mem_nsg.Struct.{
  SearchState, query_init, query_init_finish, query_get_data, query_pending_edge,
  query_pending_distance, query_finish,
}
use near_mem_nsg.TaskQueue.Bounds.{pop-All}
use near_mem_nsg.Nsg.Pool.{Neighbor}
use near_mem_nsg.Nsg.NewSearch.Start.{IsSort, new_search_init_fit}
use near_mem_nsg.Nsg.PreProcess.Prepared.{IsPrepared-own}
use near_mem_nsg.Nsg.PreProcess.{Gather}
use near_mem_nsg.Qe.{Engine, Config, Index}
use near_mem_nsg.Nsg.Steps.Ends.{FitPool}
use near_mem_nsg.Qe.Keeps.{
  Keeps, KeepsOrGoes, init-Keeps, edge-Keeps, distance-Keeps, init_finish-Keeps, fetch-cases,
}
use near_mem_nsg.Qe.Totality.{
  CanStart, init-total, init_finish-total, edge-total, distance_stage-total, fetch-total,
}
use near_mem_nsg.Nsg.Optimum.Reached.{IsReached}
use near_mem_nsg.Nsg.Optimum.Start.{new_search_init-IsReached}
use near_mem_nsg.Qe.Init
use near_mem_nsg.Qe.Edge
use near_mem_nsg.Qe.Distance
use near_mem_nsg.Sim.Setup.{Globals}
use near_mem_nsg.Files.Vectors.{vector_at-in_range}
use near_mem_nsg.Sim.Index.{entry_id, global_index, engine_globals, start_search}
use near_mem_nsg.Sim.Index.Sound.{
  IsSetUp, Starting, SearchedTo, Searching, SearchIn, SearchEngine, IsSound, AreQueries, sound,
}

returned :
    {A : Type 0} (m : Option (Bool × A)) → m ≢ none → (b : Bool) × (x : A) × (m ≡ some (b, x))
returned m total = elim (Option-cases m) [
  | inl fault ↦ absurd (total fault)
  | inr ((b, x), h) ↦ (b, x, h)
]

module _ {D : Type 0} (lt : D → D → Bool) (asym : (a b : D) → lt a b ≡ true → lt b a ≡ false)
    (chain : (a b c : D) → lt a b ≡ false → lt b c ≡ false → lt a c ≡ false) (dset : IsSet D)
    (compare : List ℕ → List ℕ → D) (symmetric : (a b : List ℕ) → compare a b ≡ compare b a)
    (sort : List (Neighbor D) → List (Neighbor D)) (sorts : IsSort lt sort) (l : ℕ)
    (unset : Neighbor D) (w : Globals D) (setup : IsSetUp l unset w) where
  abbrev E : Type 0
  E = Engine (Option (List (Neighbor D))) (List Bool)

  abbrev Q : Type 0
  Q = SearchEngine lt asym chain compare l unset w setup

  abbrev Begins : Q → Type 0
  Begins = Starting lt asym chain compare l unset w setup

  abbrev Reaches : ℕ → Q → Type 0
  Reaches = SearchedTo lt asym chain compare l unset w setup

  abbrev Searches : Q → Type 0
  Searches = Searching lt asym chain compare l unset w setup

  abbrev Fit : List (Neighbor D) → List Bool → Type 0
  Fit = FitPool lt asym compare w.base.rows l setup.pos w.index setup.graph setup.vectors

  abbrev Sound : Q → Type 0
  Sound = IsSound lt asym chain compare l unset w setup

  abbrev In : SearchState → Q → Type 0
  In = SearchIn lt asym chain compare l unset w setup

  -- A result of a stage, and a sound engine.
  abbrev pub Succeeds : Option (Bool × E) → Type 0
  Succeeds o = (b : Bool) × (e' : E) × (o ≡ some (b, e')) × Sound e'.qe

  Reaches-Keeps : (k : ℕ) (q q' : Q) → Keeps q q' → Reaches k q → Reaches k q'
  Reaches-Keeps k q q' keeps s = record {
    pool = s.pool;
    query = s.query;
    retset = keeps.retset ∙ s.retset;
    vector = ap (get_elem? w.query.rows) keeps.query_id ∙ s.vector;
    fit = subst (Fit s.pool) (sym keeps.flags) s.fit;
    reached =
        subst (IsReached lt compare w.base.rows l w.index s.query k s.pool) (sym keeps.flags)
          s.reached;
  }

  searching-Keeps : (q q' : Q) → Keeps q q' → Searches q → Searches q'
  searching-Keeps q q' keeps (k, at, s) = (k, keeps.while_k ∙ at, Reaches-Keeps k q q' keeps s)

  -- A state that leaves the search alone and goes from one in which there is a step to another.
  goes :
      (e e' : E) (st st' : SearchState)
      → KeepsOrGoes st' e e'
      → e.qe.query_state ≡ st
      → l ≤ length e.qe.init_dc_state
      → ((q : Q) → Searches q → In st q × In st' q)
      → Searches e.qe
      → Sound e'.qe
  goes e e' st st' (keeps, state) same room either s =
      let s' = searching-Keeps e.qe e'.qe keeps s in
      let room' : l ≤ length e'.qe.init_dc_state = omega (arith, room, keeps.states) in
      elim state [
        | inl stays ↦
            sound lt asym chain compare l unset w setup e'.qe st (stays ∙ same) room'
              (either e'.qe s').0
        | inr on ↦
            sound lt asym chain compare l unset w setup e'.qe st' on room' (either e'.qe s').1
      ]

  abbrev cfg : Config (Option (List (Neighbor D))) (List Bool)
  cfg = engine_globals lt compare sort l w

  abbrev index : Index (Option (List (Neighbor D))) (List Bool)
  index = global_index lt compare sort l w

  pub edge-Succeeds :
      (now : ℕ) (e : E)
      → e.qe.query_state ≡ query_pending_edge
      → l ≤ length e.qe.init_dc_state
      → Searches e.qe
      → Succeeds (Edge.query_pending_edge now e)
  edge-Succeeds now e same room s =
      let (b, e', h) = returned (Edge.query_pending_edge now e) (edge-total cfg index now e) in
      (
        b,
        e',
        h,
        goes e e' query_pending_edge query_pending_distance (edge-Keeps cfg index now e b e' h) same
            room (λ q s. (s, s)) s,
      )

  pub distance-Succeeds :
      (now : ℕ) (e : E)
      → e.qe.query_state ≡ query_pending_distance
      → l ≤ length e.qe.init_dc_state
      → Searches e.qe
      → Succeeds (Distance.query_pending_distance now e)
  distance-Succeeds now e same room s =
      let (b, e', h) =
        returned (Distance.query_pending_distance now e) (distance_stage-total cfg index now e) in
      (
        b,
        e',
        h,
        goes e e' query_pending_distance query_get_data (distance-Keeps cfg index now e b e' h) same
            room (λ q s. (s, s)) s,
      )

  -- `NewSearchInit` fills the pool of a search that begins.
  started_pool :
      (q : Q)
      → Begins q
      → (pool : List (Neighbor D)) × (query : List ℕ) × (start_search lt compare sort l w q.init_ids
            q.retset q.query_id
          ≡ some pool)
        × (get_elem? w.query.rows q.query_id ≡ some query)
        × Fit pool q.flags
        × IsReached lt compare w.base.rows l w.index query 0 pool q.flags
  unfolding start_search
  started_pool q s =
      let ready = setup.ready in
      let gathered : Gather = record {
        init_ids = w.global_init_ids;
        tmp_l = l;
        flags = w.global_flags;
      } in
      let (query, g) = get_elem?-lt w.query.rows q.query_id s.query in
      let (pool, h, fit, bound) =
        new_search_init_fit lt asym compare w.base.rows l setup.pos w.index setup.graph
          setup.vectors sort unset w.global_init_ids w.global_flags query sorts setup.node
          ready.full (IsPrepared-own l w.index.nd gathered ready) ready.nodes in
      let reached =
        new_search_init-IsReached lt asym compare symmetric dset w.base.rows l setup.pos w.index
          setup.graph setup.vectors sort sorts unset query gathered pool ready h in
      (
        pool,
        query,
        rw
            (
              s.retset,
              s.init_ids,
              vector_at-in_range w.base.dim w.query.rows q.query_id query setup.even setup.range g,
              setup.retset,
            )
            h,
        g,
        subst (Fit pool) (sym s.flags) fit,
        subst (IsReached lt compare w.base.rows l w.index query 0 pool) (sym s.flags) reached,
      )

  -- The blank entries are there for the requests, and `NewSearchInit` fills the pool.
  can_start : (e : E) → Begins e.qe → CanStart cfg index 0 e
  unfolding global_index entry_id
  can_start e s =
      let (pool, query, p, g, fit, reached) = started_pool e.qe s in
      (
        λ i h.
            let (entry, at) =
              get_elem?-lt (replicate (l + 1) unset) i
                (omega (arith, length-replicate (l + 1) unset)) in
            (entry.id, rw (s.retset, setup.retset, at) refl),
        rw p (λ fault. absurd (ground arith)),
      )

  pub init-Succeeds :
      (e : E)
      → e.qe.query_state ≡ query_init
      → l ≤ length e.qe.init_dc_state
      → Begins e.qe
      → Succeeds (Init.query_init cfg index e)
  unfolding global_index
  init-Succeeds e same room s =
      let (b, e', h) =
        returned (Init.query_init cfg index e) (init-total cfg index 0 e room (can_start e s)) in
      (
        b,
        e',
        h,
        elim (init-Keeps cfg index 0 e b e' h) [
          | inl (keeps, stays) ↦
              sound lt asym chain compare l unset w setup e'.qe query_init (stays ∙ same)
                (omega (arith, room, keeps.states))
                (record {
                  retset = keeps.retset ∙ s.retset;
                  init_ids = keeps.init_ids ∙ s.init_ids;
                  flags = keeps.flags ∙ s.flags;
                  query = subst (λ i. i < length w.query.rows) (sym keeps.query_id) s.query;
                })
          | inr (r, fills, refilled) ↦
              let (state, filled, keeps) = refilled in
              let (pool, query, p, g, fit, reached) = started_pool e.qe s in
              let made : r ≡ some pool = ground (arith, p, fills) in
              sound lt asym chain compare l unset w setup e'.qe query_init_finish state
                (omega (arith, room, keeps.states))
                (record {
                  pool = pool;
                  query = query;
                  retset = filled ∙ made;
                  vector = ap (get_elem? w.query.rows) keeps.query_id ∙ g;
                  fit = subst (Fit pool) (sym keeps.flags) fit;
                  reached =
                      subst (IsReached lt compare w.base.rows l w.index query 0 pool)
                        (sym keeps.flags) reached;
                })
        ],
      )

  pub init_finish-Succeeds :
      (e : E)
      → e.qe.query_state ≡ query_init_finish
      → l ≤ length e.qe.init_dc_state
      → Reaches 0 e.qe
      → Succeeds (Init.query_init_finish cfg index e)
  init_finish-Succeeds e same room s =
      let (b, e', h) =
        returned (Init.query_init_finish cfg index e) (init_finish-total cfg index 0 e) in
      (
        b,
        e',
        h,
        elim (init_finish-Keeps cfg index 0 e b e' h) [
          | inl (keeps, stays) ↦
              sound lt asym chain compare l unset w setup e'.qe query_init_finish (stays ∙ same)
                (omega (arith, room, keeps.states)) (Reaches-Keeps 0 e.qe e'.qe keeps s)
          | inr (state, first, keeps) ↦
              sound lt asym chain compare l unset w setup e'.qe query_get_data state
                (omega (arith, room, keeps.states))
                (0, first, again e' (Reaches-Keeps 0 e.qe _ keeps s))
        ],
      )
    where
      again : (e' : E) → Reaches 0 (record e'.qe { while_k = e.qe.while_k }) → Reaches 0 e'.qe
      again e' s = record {
        pool = s.pool;
        query = s.query;
        retset = s.retset;
        vector = s.vector;
        fit = s.fit;
        reached = s.reached;
      }

  pub fetch-Succeeds :
      (e : E)
      → e.qe.query_state ≡ query_finish
      → l ≤ length e.qe.init_dc_state
      → In query_finish e.qe
      → AreQueries lt asym chain compare l unset w setup e.ports.tasks
      → Succeeds (Init.fetch cfg index e)
  fetch-Succeeds e same room s queries =
      let (b, e', h) = returned (Init.fetch cfg index e) (fetch-total cfg index 0 e room) in
      (
        b,
        e',
        h,
        elim (fetch-cases cfg index 0 e b e' h) [
          | inl still ↦
              subst Sound (sym still)
                (sound lt asym chain compare l unset w setup e.qe query_finish same room s)
          | inr (task, c, taken, f) ↦
              sound lt asym chain compare l unset w setup e'.qe query_init f.state
                (omega (arith, room, f.states))
                (record {
                  retset = f.retset;
                  init_ids = f.init_ids;
                  flags = f.flags;
                  query =
                      subst (λ i. i < length w.query.rows) (sym f.query_id)
                        (pop-All (λ t. t.query_id < length w.query.rows) e.ports.tasks task c taken
                          queries);
                })
        ],
      )
