-- ===== src/Qe/Issue.antt =====
-- The reads that an engine of src/qe.cc prepares for a step of the search: they can be prepared
-- where their sizes stay within an `int`.
use near_mem_nsg.Base.{
  ℕ, suc, ◌+◌, ◌*◌, ◌%◌, ◌^◌, ◌≤◌, ◌<◌, ◌≡◌, refl, inl, inr, Bool, true, false, some, List, [], ◌∷◌,
  arith, Option-cases, length, u64_mod, add64,
}
use near_mem_nsg.Struct.{query_pending_edge, QeDcTask}
use near_mem_nsg.Mapping.{Layout, EdgeTable, cacheline_size, int, extent}
use near_mem_nsg.Mapping.Fits.{address_mapping-fits}
use near_mem_nsg.Qe.State.{SearchStep, Index, Config, QueryEngine, Engine}
use near_mem_nsg.Qe.GetData.{make_tasks, issue}

-- What a vector takes at most, in bytes.
abbrev pub vector_room : Layout → ℕ
vector_room g = g.dim * g.global_sizeof + cacheline_size

vector_extent :
    (g : Layout) (t : EdgeTable) (id : ℕ)
    → vector_room g < 2 ^ 31
    → extent g t id false ≡ some (g.dim * g.global_sizeof, id * g.dim * g.global_sizeof % u64_mod)
unfolding extent int
vector_extent g t id h = ground arith

edge_extent :
    (g : Layout) (t : EdgeTable) (id : ℕ)
    → t.edge_size id + cacheline_size < 2 ^ 31
    → extent g t id true
      ≡ some (
        t.edge_size id,
        add64 (t.edge_addr id) (g.points_num * g.dim * g.global_sizeof % u64_mod),
      )
unfolding extent int
edge_extent g t id h = ground arith

next_room : (n acc acc' b : ℕ) → acc + suc n * b < 2 ^ 31 → acc' ≤ acc + b → acc' + n * b < 2 ^ 31
next_room n acc acc' b h k = grind arith

-- The engine waits for the edge list of a step, with what the search has answered.
pub record Issued {R F : Type 0} (q : QueryEngine R F) (st : SearchStep R F) (q' : QueryEngine R F)
    : Type 0 where
  pub state : q'.query_state ≡ query_pending_edge
  pub retset : q'.retset ≡ st.retset
  pub flags : q'.flags ≡ st.flags
  pub query_id : q'.query_id ≡ q.query_id
  pub while_k : q'.while_k ≡ st.next_k
  pub states : q'.init_dc_state ≡ q.init_dc_state

module _ {R F : Type 0} (cfg : Config R F) (index : Index R F) where
  make_tasks-fits :
      (qe_name query_id : ℕ) (ids latencies : List ℕ) (acc : ℕ)
      → length ids ≡ length latencies
      → acc + length ids * vector_room cfg.layout < 2 ^ 31
      → (tasks : List QeDcTask) × (total : ℕ) × (make_tasks cfg index qe_name query_id ids latencies
            acc
          ≡ some (tasks, total))
  unfolding make_tasks
  make_tasks-fits qe_name query_id [] latencies acc paired room = ([], acc, refl)
  make_tasks-fits qe_name query_id (id ∷ ids) [] acc paired room = absurd (ground arith)
  make_tasks-fits qe_name query_id (id ∷ ids) (latency ∷ latencies) acc paired room =
      let here : acc + vector_room cfg.layout < 2 ^ 31 = grind arith in
      let (lines, acc', q, few) =
        address_mapping-fits cfg.layout index.edges id false [] acc
          (cfg.layout.dim * cfg.layout.global_sizeof) _
          (vector_extent cfg.layout index.edges id (omega arith)) here in
      let (tasks, total, q') =
        make_tasks-fits qe_name query_id ids latencies acc' (omega arith)
          (next_room (length ids) acc acc' (vector_room cfg.layout) room few) in
      elim (Option-cases
        (make_tasks cfg index qe_name query_id (id ∷ ids) (latency ∷ latencies) acc)) [
          | inl fault ↦ absurd (ground (arith, q, q'))
          | inr ((all, sum), h) ↦ (all, sum, h)
        ]

  -- A step with a latency for each target is prepared where the edge list and the vectors of the
  -- targets leave room for a line each: the engine then has the search as it was answered, and
  -- waits for the edge list.
  pub issue-fits :
      (current_cycle : ℕ) (e : Engine R F) (st : SearchStep R F)
      → length st.target_ids ≡ length st.compare_latency
      → index.edges.edge_size st.edge_table_id + cacheline_size < 2 ^ 31
      → length st.target_ids * vector_room cfg.layout < 2 ^ 31
      → (b : Bool) × (e' : Engine R F) × (issue cfg index current_cycle e st ≡ some (b, e'))
        × Issued e.qe st e'.qe
  unfolding issue
  issue-fits current_cycle e st paired edges room =
      let (lines, offset, q, few) =
        address_mapping-fits cfg.layout index.edges st.edge_table_id true [] 0
          (index.edges.edge_size st.edge_table_id) _
          (edge_extent cfg.layout index.edges st.edge_table_id edges) (omega arith) in
      let (tasks, total, q') =
        make_tasks-fits e.qe.qe_name e.qe.query_id st.target_ids st.compare_latency 0 paired
          (omega arith) in
      elim (Option-cases (issue cfg index current_cycle e st)) [
        | inl fault ↦ absurd (ground (arith, q, q'))
        | inr ((b, e'), h) ↦ (
          b,
          e',
          h,
          record {
            state = ground (arith, q, q');
            retset = ground (arith, q, q');
            flags = ground (arith, q, q');
            query_id = ground (arith, q, q');
            while_k = ground (arith, q, q');
            states = ground (arith, q, q');
          },
        )
      ]
