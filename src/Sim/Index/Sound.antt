-- ===== src/Sim/Index/Sound.antt =====
-- What the globals of bins/simulation.cc have to be for an engine, and what an engine of src/qe.cc
-- is while it searches on them.
use near_mem_nsg.Base.{
  ℕ, ◌+◌, ◌*◌, ◌^◌, ◌≤◌, ◌<◌, ◌≡◌, sym, subst, ◌⊎◌, Bool, true, false, Option, some, List, length,
  get_elem?, replicate, All, u32_mod,
}
use near_mem_nsg.Struct.{
  SearchState, query_init, query_init_finish, query_get_data, query_pending_edge,
  query_pending_distance, query_finish, RequestState, QeDcTask, NsgTask,
}
use near_mem_nsg.Mapping.{cacheline_size}
use near_mem_nsg.TaskQueue.{Channel}
use near_mem_nsg.Nsg.Pool.{Neighbor}
use near_mem_nsg.Nsg.GetData.Answers.{IsGraph}
use near_mem_nsg.Nsg.Steps.Ends.{FitPool}
use near_mem_nsg.Nsg.PreProcess.Prepared.{IsPrepared}
use near_mem_nsg.Qe.{QueryEngine}
use near_mem_nsg.Nsg.Pool.Sorted.{IsSorted}
use near_mem_nsg.Nsg.Optimum.{IsMeasured}
use near_mem_nsg.Nsg.Optimum.Reached.{IsReached}
use near_mem_nsg.Nsg.Optimum.Found.{IsOptimum}
use near_mem_nsg.Sim.Setup.{Globals}
use near_mem_nsg.Sim.Index.{new_engine}

-- The globals after the set-up: a well-formed graph with a vector for each node, queries of the
-- same dimension that have at most 2 ^ 32 words together, blank entries, and the initial ids that
-- `PreProcess` gathers.
pub record IsSetUp {D : Type 0} (l : ℕ) (unset : Neighbor D) (w : Globals D) : Type 0 where
  pub pos : 0 < l
  pub graph : IsGraph w.index
  pub vectors : w.index.nd ≤ length w.base.rows
  pub node : unset.id < w.index.nd
  pub even : All (λ r. length r ≡ w.base.dim) w.query.rows
  pub range : length w.query.rows * w.base.dim ≤ u32_mod
  pub retset : w.global_retset ≡ replicate (l + 1) unset
  pub ready :
      IsPrepared l w.index.nd
        (record { init_ids = w.global_init_ids; tmp_l = l; flags = w.global_flags })

-- The reads of a step leave room in an `int`: each edge list, and the vectors of its nodes, have
-- fewer bytes than that, with a line to spare for each read.
pub record IsSmall {D : Type 0} (w : Globals D) : Type 0 where
  pub sizes : length w.index.accumulate_nsg_size ≡ w.index.nd
  pub lists : All (λ es. length es * 4 + cacheline_size < 2 ^ 31) w.index.final_graph
  pub reads :
      All
        (λ es. length es * (w.base.dim * w.global_sizeof + cacheline_size) < 2 ^ 31)
        w.index.final_graph

module _ {D : Type 0} (lt : D → D → Bool) (asym : (a b : D) → lt a b ≡ true → lt b a ≡ false)
    (chain : (a b c : D) → lt a b ≡ false → lt b c ≡ false → lt a c ≡ false)
    (compare : List ℕ → List ℕ → D) (l : ℕ) (unset : Neighbor D) (w : Globals D)
    (setup : IsSetUp l unset w) where
  abbrev pub SearchEngine : Type 0
  SearchEngine = QueryEngine (Option (List (Neighbor D))) (List Bool)

  -- A search of a query of the query file that has not begun.
  pub record Starting (q : SearchEngine) : Type 0 where
    pub retset : q.retset ≡ some w.global_retset
    pub init_ids : q.init_ids ≡ w.global_init_ids
    pub flags : q.flags ≡ w.global_flags
    pub query : q.query_id < length w.query.rows

  -- One that has come to position `k` in a well-formed pool, with what a search has reached there.
  pub record SearchedTo (k : ℕ) (q : SearchEngine) : Type 0 where
    pub pool : List (Neighbor D)
    pub query : List ℕ
    pub retset : q.retset ≡ some pool
    pub vector : get_elem? w.query.rows q.query_id ≡ some query
    pub fit :
        FitPool lt asym compare w.base.rows l setup.pos w.index setup.graph setup.vectors pool
          q.flags
    pub reached : IsReached lt compare w.base.rows l w.index query k pool q.flags

  abbrev pub Searching : SearchEngine → Type 0
  Searching q = (k : ℕ) × (q.while_k ≡ some k) × SearchedTo k q

  -- The result set is what a search is to find for the query: its first `L` entries are in order and
  -- have the distances of their nodes to the query, and every neighbour of one of these stands among
  -- them or is no nearer to the query than the last.
  pub record HasFound (q : SearchEngine) : Type 0 where
    pub pool : List (Neighbor D)
    pub query : List ℕ
    pub retset : q.retset ≡ some pool
    pub vector : get_elem? w.query.rows q.query_id ≡ some query
    pub sorted : IsSorted lt l pool
    pub measured : IsMeasured lt compare w.base.rows l query pool
    pub optimum :
        IsOptimum lt asym chain compare w.base.rows l setup.pos w.index setup.graph setup.vectors
          query pool

  -- An engine as it is constructed.
  abbrev pub IsNew : SearchEngine → Type 0
  IsNew q =
      (states : List RequestState) × (task : QeDcTask) × (qe_name : ℕ) × (q
        ≡ new_engine l w.base.num unset states task qe_name)

  -- By the state of the engine.
  abbrev pub SearchIn : SearchState → SearchEngine → Type 0
  SearchIn query_init q = Starting q
  SearchIn query_init_finish q = SearchedTo 0 q
  SearchIn query_get_data q = Searching q
  SearchIn query_pending_edge q = Searching q
  SearchIn query_pending_distance q = Searching q
  SearchIn query_finish q = IsNew q ⊎ HasFound q

  -- An engine that has a state for each initial id, and whose search is as its state says.
  pub record IsSound (q : SearchEngine) : Type 0 where
    pub room : l ≤ length q.init_dc_state
    pub search : SearchIn q.query_state q

  pub sound :
      (q : SearchEngine) (st : SearchState)
      → q.query_state ≡ st
      → l ≤ length q.init_dc_state
      → SearchIn st q
      → IsSound q
  sound q st same room search = record {
    room = room;
    search = subst (λ s. SearchIn s q) (sym same) search;
  }

  -- The channel of queries holds queries of the query file.
  abbrev pub AreQueries : Channel NsgTask → Type 0
  AreQueries c = All (λ t. t.query_id < length w.query.rows) c.task_queue.queue
