-- ===== src/Qe/Vector.antt =====
-- The inner loop of `case query_pending_distance` in src/qe.cc: the reads of one vector.
use near_mem_nsg.Base.{
  ℕ, ◌+◌, Bool, true, false, Option, ◌==◌, if◌then◌else◌, ◌>>=◌, inc64, add64, sub64,
}
use near_mem_nsg.Struct.{
  WhileRequestState, read_not_send, read_inflight, read_finished, MemReadTask, QeMemState,
}
use near_mem_nsg.TaskQueue.{full, push, empty, get, pop}
use near_mem_nsg.Qe.State.{Ports, Stats, Trace}
use near_mem_nsg.Qe.Loop.{Pass, goes_on, returns}

-- The local variables of both loops, with what their bodies change.
pub record DistanceScan : Type 0 where
  pub vector_read_done : Bool
  pub all_vec_read_ready : Bool
  pub all_distance_ready : Bool
  pub all_sort_ready : Bool
  pub compare_busy : Bool
  pub prev_sort_finish : Bool
  pub ports : Ports
  pub trace : Trace
  pub stats : Stats

abbrev pub counts_mem3 : Stats → Stats
counts_mem3 t = record t { stall_mem3 = inc64 t.stall_mem3 }

module _ (current_cycle qe_name node_id : ℕ) where
  vec_sent : Trace → Trace
  vec_sent t = record t {
    send_vec = t.send_vec + 1;
    total_vec = t.total_vec + 1;
    total_vec_time = sub64 t.total_vec_time current_cycle;
    qe0_vec = if qe_name == 0 then t.qe0_vec + 1 else t.qe0_vec;
    qe0_vec_time = if qe_name == 0 then sub64 t.qe0_vec_time current_cycle else t.qe0_vec_time;
  }

  -- What a look at the head of the returned reads notes.
  vec_looked : Trace → Trace
  vec_looked t = record t {
    sub_is_first = false;
    sub_first_return = if t.sub_is_first then current_cycle else t.sub_first_return;
    sub_last_return = current_cycle;
  }

  vec_received : Trace → Trace
  vec_received t = record t {
    rcv_vec = t.rcv_vec + 1;
    total_vec_time = add64 t.total_vec_time current_cycle;
    qe0_vec_time = if qe_name == 0 then add64 t.qe0_vec_time current_cycle else t.qe0_vec_time;
  }

  -- A read that is not finished.
  vec_waiting : DistanceScan → DistanceScan
  vec_waiting s = record s {
    vector_read_done = false;
    all_vec_read_ready = false;
    stats = record s.stats { stall_mem = inc64 s.stats.stall_mem };
  }

  vec_receive : QeMemState → DistanceScan → MemReadTask → Option (Pass QeMemState DistanceScan)
  unfolding vec_received vec_looked
  vec_receive r s top =
      let looked = record s { trace = vec_looked s.trace } in
      if top.addr == r.mem_read_addr
      then (pop s.ports.mem_ret >>= λ (_, c).
          returns (record r { state = read_finished })
            (record looked {
              ports = record s.ports { mem_ret = c };
              trace = vec_received looked.trace;
              stats = counts_mem3 s.stats;
            }))
      else goes_on r looked

  -- The body of the loop, by the state of the read.
  vec_by_state :
      QeMemState → DistanceScan → WhileRequestState → Option (Pass QeMemState DistanceScan)
  unfolding vec_sent vec_receive vec_waiting
  vec_by_state r s read_finished = goes_on r s
  vec_by_state r s read_not_send =
      let waiting = vec_waiting s in
      if full s.ports.mem
      then goes_on r waiting
      else (push
            (record {
              addr = r.mem_read_addr;
              is_read = true;
              qe_name = qe_name;
              node_id = node_id;
              is_edge_table = false;
            })
            s.ports.mem
          >>= λ c.
              returns (record r { state = read_inflight })
                (record waiting {
                  ports = record s.ports { mem = c };
                  trace = vec_sent s.trace;
                  stats = counts_mem3 waiting.stats;
                }))
  vec_by_state r s read_inflight =
      if empty s.ports.mem_ret
      then goes_on r (vec_waiting s)
      else (get s.ports.mem_ret >>= vec_receive r (vec_waiting s))
  vec_by_state r s _ = goes_on r (vec_waiting s)

  unfoldable pub vec_visit : QeMemState → DistanceScan → Option (Pass QeMemState DistanceScan)
  unfolding vec_by_state
  vec_visit r s = vec_by_state r s r.state
