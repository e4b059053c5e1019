-- ===== src/Qe/Edge.antt =====
-- `case query_pending_edge` of `Query_Engine::do_cycle` in src/qe.cc: the reads of the edge list.
use near_mem_nsg.Base.{
  ℕ, ◌+◌, Bool, true, false, Option, some, List, ◌==◌, if◌then◌else◌, ◌>>=◌, inc64, add64, sub64,
}
use near_mem_nsg.Struct.{
  SearchState, WhileRequestState, read_not_send, read_inflight, read_finished, MemReadTask,
  QeMemState,
}
use near_mem_nsg.TaskQueue.{full, push, empty, get, pop}
use near_mem_nsg.Qe.State.{Ports, Stats, Trace, Engine}
use near_mem_nsg.Qe.Loop.{Pass, goes_on, returns, for_each}

-- The local variable of the loop, with what its body changes.
pub record EdgeScan : Type 0 where
  pub all_edge_read_done : Bool
  pub ports : Ports
  pub trace : Trace

module _ (current_cycle qe_name node_id : ℕ) where
  edge_sent : Trace → Trace
  edge_sent t = record t {
    send_edge = t.send_edge + 1;
    total_edge = t.total_edge + 1;
    total_edge_time = sub64 t.total_edge_time current_cycle;
    qe0_edge = if qe_name == 0 then t.qe0_edge + 1 else t.qe0_edge;
    qe0_edge_time = if qe_name == 0 then sub64 t.qe0_edge_time current_cycle else t.qe0_edge_time;
  }

  edge_received : Trace → Trace
  edge_received t = record t {
    rcv_edge = t.rcv_edge + 1;
    total_edge_time = add64 t.total_edge_time current_cycle;
    qe0_edge_time = if qe_name == 0 then add64 t.qe0_edge_time current_cycle else t.qe0_edge_time;
  }

  -- The head of the returned reads is taken if it has the address of this one.
  edge_receive : QeMemState → EdgeScan → MemReadTask → Option (Pass QeMemState EdgeScan)
  unfolding edge_received
  edge_receive r s top =
      if top.addr == r.mem_read_addr
      then (pop s.ports.mem_ret >>= λ (_, c).
          returns (record r { state = read_finished })
            (record s { ports = record s.ports { mem_ret = c }; trace = edge_received s.trace }))
      else goes_on r s

  -- The body of the loop, by the state of the read.
  edge_by_state : QeMemState → EdgeScan → WhileRequestState → Option (Pass QeMemState EdgeScan)
  unfolding edge_sent edge_receive
  edge_by_state r s read_finished = goes_on r s
  edge_by_state r s read_not_send =
      let waiting = record s { all_edge_read_done = false } in
      if full s.ports.mem
      then goes_on r waiting
      else (push
            (record {
              addr = r.mem_read_addr;
              is_read = true;
              qe_name = qe_name;
              node_id = node_id;
              is_edge_table = true;
            })
            s.ports.mem
          >>= λ c.
              returns (record r { state = read_inflight })
                (record waiting { ports = record s.ports { mem = c }; trace = edge_sent s.trace }))
  edge_by_state r s read_inflight =
      let waiting = record s { all_edge_read_done = false } in
      if empty s.ports.mem_ret
      then goes_on r waiting
      else (get s.ports.mem_ret >>= edge_receive r waiting)
  edge_by_state r s _ = goes_on r (record s { all_edge_read_done = false })

  unfoldable pub edge_visit : QeMemState → EdgeScan → Option (Pass QeMemState EdgeScan)
  unfolding edge_by_state
  edge_visit r s = edge_by_state r s r.state

module _ {R F : Type 0} where
  unfoldable pub edge_scan : ℕ → Engine R F → Option (Pass (List QeMemState) EdgeScan)
  edge_scan current_cycle e =
      for_each (edge_visit current_cycle e.qe.qe_name e.qe.edge_read_task.node_id)
        e.qe.edge_read_task.mem_read_state
        (record { all_edge_read_done = true; ports = e.ports; trace = e.trace })

  edge_counted : Engine R F → Stats
  edge_counted e = record e.stats {
    stage4 = inc64 e.stats.stage4;
    stage4_qe0 = if e.qe.qe_name == 0 then inc64 e.stats.stage4_qe0 else e.stats.stage4_qe0;
  }

  unfoldable pub edge_done : ℕ → Engine R F → Pass (List QeMemState) EdgeScan → Bool × Engine R F
  unfolding edge_counted
  edge_done current_cycle e p =
      let e' = record e {
        qe = record e.qe {
          edge_read_task = record e.qe.edge_read_task { mem_read_state = p.value };
        };
        ports = p.state.ports;
        trace = p.state.trace;
        stats = edge_counted e;
      } in
      if p.returned
      then (true, e')
      else if p.state.all_edge_read_done
      then (
        true,
        record e' {
          qe = record e'.qe { query_state = SearchState.query_pending_distance };
          trace = record e'.trace { exe_time_start = current_cycle };
        },
      )
      else (false, record e' { stats = record e'.stats { stall_mem1 = inc64 e'.stats.stall_mem1 } })

  -- `case query_pending_edge`.
  unfoldable pub query_pending_edge : ℕ → Engine R F → Option (Bool × Engine R F)
  unfolding edge_done edge_scan
  query_pending_edge current_cycle e =
      edge_scan current_cycle e >>= λ p. some (edge_done current_cycle e p)
