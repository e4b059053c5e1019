-- ===== src/Qe/GetData.antt =====
-- `case query_get_data` of `Query_Engine::do_cycle` in src/qe.cc: one step of the search on the
-- index, and the reads that the engine is to issue for it.
use near_mem_nsg.Base.{
  ℕ, Bool, true, false, Option, none, some, List, [], ◌∷◌, ◌++◌, map, ◌==◌, if◌then◌else◌, ◌>>=◌,
  inc64,
}
use near_mem_nsg.Struct.{SearchState, read_not_send, read_inflight, QeMemState, QeDcTask}
use near_mem_nsg.Mapping.{address_mapping}
use near_mem_nsg.Qe.State.{Stats, Trace, SearchStep, Index, Config, QueryEngine, Engine}

-- A read of each address, not yet sent.
abbrev pub reads_of : List ℕ → List QeMemState
reads_of = map (λ addr. record { mem_read_addr = addr; state = read_not_send })

module _ {R F : Type 0} (cfg : Config R F) (index : Index R F) where
  -- A task for each target id, with its latency, and the sum of the lines read. Fewer latencies
  -- than ids are a read out of bounds.
  unfoldable pub make_tasks : ℕ → ℕ → List ℕ → List ℕ → ℕ → Option (List QeDcTask × ℕ)
  make_tasks qe_name query_id [] latencies offset = some ([], offset)
  make_tasks qe_name query_id (id ∷ ids) [] offset = none
  make_tasks qe_name query_id (id ∷ ids) (latency ∷ latencies) offset = do
    (addrs, offset') ← address_mapping cfg.layout index.edges id false [] offset
    (rest, offset'') ← make_tasks qe_name query_id ids latencies offset'
    let task : QeDcTask = record {
      qe_name = qe_name;
      query_id = query_id;
      node_id = id;
      mem_read_state = reads_of addrs;
      remaining_compare_cycle = latency;
      state = read_inflight;
    }
    some (task ∷ rest, offset'')

  data_counted : Engine R F → Stats
  data_counted e = record e.stats {
    stage3 = inc64 e.stats.stage3;
    stage3_qe0 = if e.qe.qe_name == 0 then inc64 e.stats.stage3_qe0 else e.stats.stage3_qe0;
  }

  -- The members that `NewSearchGetData` and its result change.
  abbrev pub searched : QueryEngine R F → SearchStep R F → QueryEngine R F
  searched q st = record q {
    while_k = st.next_k;
    retset = st.retset;
    flags = st.flags;
    edge_table_id = st.edge_table_id;
  }

  restart_trace : ℕ → Trace → Trace
  restart_trace current_cycle t = record t {
    is_first = true;
    first_return = 0;
    last_return = 0;
    sub_is_first = true;
    sub_first_return = 0;
    sub_last_return = 0;
    time_edge_start = current_cycle;
    send_edge = 0;
    send_vec = 0;
    rcv_edge = 0;
    rcv_vec = 0;
  }

  -- The edge list and the vectors to read for a step with targets.
  unfoldable pub issue : ℕ → Engine R F → SearchStep R F → Option (Bool × Engine R F)
  unfolding make_tasks restart_trace data_counted
  issue current_cycle e st = do
    (edge_addrs, offset_edge) ← address_mapping cfg.layout index.edges st.edge_table_id true [] 0
    (tasks, offset_vec) ← make_tasks e.qe.qe_name e.qe.query_id st.target_ids st.compare_latency 0
    let edge_task : QeDcTask = record {
      qe_name = e.qe.qe_name;
      query_id = e.qe.query_id;
      node_id = st.edge_table_id;
      mem_read_state = reads_of edge_addrs;
      remaining_compare_cycle = 0;
      state = read_not_send;
    }
    some (
      true,
      record e {
        qe = record (searched e.qe st) {
          offset_edge = offset_edge;
          offset_vec = offset_vec;
          edge_read_task = edge_task;
          dc_task_list = e.qe.dc_task_list ++ tasks;
          query_state = SearchState.query_pending_edge;
        };
        trace = restart_trace current_cycle e.trace;
        stats = data_counted e;
      },
    )

  -- By the new `while_k`, and by whether there are targets.
  unfoldable pub by_step :
      ℕ → Engine R F → SearchStep R F → Option ℕ → List ℕ → Option (Bool × Engine R F)
  unfolding issue data_counted
  by_step current_cycle e st none ids = some (
    true,
    record e {
      qe = record (searched e.qe st) { query_state = SearchState.query_finish };
      stats = data_counted e;
    },
  )
  by_step current_cycle e st (some k) [] =
      some (true, record e { qe = searched e.qe st; stats = data_counted e })
  by_step current_cycle e st (some k) (id ∷ ids) = issue current_cycle e st

  unfoldable pub query_get_data : ℕ → Engine R F → Option (Bool × Engine R F)
  unfolding by_step
  query_get_data current_cycle e =
      let st =
        index.new_search_get_data e.qe.retset e.qe.flags e.qe.query_id e.qe.while_k
          e.qe.edge_table_id in
      by_step current_cycle e st st.next_k st.target_ids
