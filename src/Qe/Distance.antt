-- ===== src/Qe/Distance.antt =====
-- `case query_pending_distance` of `Query_Engine::do_cycle` in src/qe.cc: the distance tasks of one
-- step of the search, each through its reads, its distance and its place in the sorted pool.
use near_mem_nsg.Base.{
  ℕ, ◌+◌, ◌-◌, Bool, true, false, not, ◌&&◌, Option, none, some, List, [], ◌==◌, if◌then◌else◌,
  ◌>>=◌, length, dec32, inc64, add64, sub64,
}
use near_mem_nsg.Struct.{
  SearchState, WhileRequestState, read_inflight, read_finished, dc_inflight, dc_finished,
  sort_finished, DistanceTask, QeDcTask, QeMemState,
}
use near_mem_nsg.TaskQueue.{full, push, empty, get, pop}
use near_mem_nsg.Qe.State.{Stats, Trace, Engine}
use near_mem_nsg.Qe.Loop.{Pass, goes_on, returns, ◌>>>◌, for_each}
use near_mem_nsg.Qe.Init.{matches}
use near_mem_nsg.Qe.Vector.{DistanceScan, counts_mem3, vec_visit}

-- The pass of the inner loop, as one over its task.
abbrev pub with_reads :
    QeDcTask → Option (Pass (List QeMemState) DistanceScan) → Option (Pass QeDcTask DistanceScan)
with_reads t none = none
with_reads t (some p) = some (record {
  returned = p.returned;
  value = record t { mem_read_state = p.value };
  state = p.state;
})

module _ (current_cycle qe_name query_id : ℕ) where
  unfoldable pub task_reads : QeDcTask → DistanceScan → Option (Pass QeDcTask DistanceScan)
  task_reads t s = with_reads t (
      for_each (vec_visit current_cycle qe_name t.node_id) t.mem_read_state
        (record s { vector_read_done = true }))

  -- What is noted when the reads of a vector are done.
  vector_returned : Trace → Trace
  vector_returned t = record t {
    is_first = false;
    first_return = if t.is_first then current_cycle else t.first_return;
    last_return = current_cycle;
  }

  unfoldable pub mark_read :
      QeDcTask → DistanceScan → WhileRequestState → Option (Pass QeDcTask DistanceScan)
  unfolding vector_returned
  mark_read t s read_inflight =
      if s.vector_read_done
      then goes_on (record t { state = read_finished })
          (record s { trace = vector_returned s.trace })
      else goes_on t s
  mark_read t s _ = goes_on t s

  -- A task whose distance is not known.
  distance_waiting : DistanceScan → DistanceScan
  distance_waiting s = record s {
    all_distance_ready = false;
    stats = record s.stats {
      stall_dc = if s.all_vec_read_ready then inc64 s.stats.stall_dc else s.stats.stall_dc;
    };
  }

  distance_receive : QeDcTask → DistanceScan → DistanceTask → Option (Pass QeDcTask DistanceScan)
  distance_receive t s top =
      if matches qe_name query_id t.node_id top
      then (pop s.ports.return_distance >>= λ (_, c).
          returns (record t { state = dc_finished })
            (record s {
              ports = record s.ports { return_distance = c };
              trace = record s.trace {
                rcv_dc = s.trace.rcv_dc + 1;
                total_dc_time = add64 s.trace.total_dc_time current_cycle;
              };
              stats = counts_mem3 s.stats;
            }))
      else goes_on t s

  -- Sending the task and receiving its result, by the state of the task.
  unfoldable pub distance_part :
      QeDcTask → DistanceScan → WhileRequestState → Option (Pass QeDcTask DistanceScan)
  unfolding distance_receive distance_waiting
  distance_part t s dc_finished = goes_on t s
  distance_part t s sort_finished = goes_on t s
  distance_part t s read_finished =
      let waiting = distance_waiting s in
      if full s.ports.distance
      then goes_on t waiting
      else (push (record { qe_name = qe_name; query_id = query_id; node_id = t.node_id })
            s.ports.distance
          >>= λ c.
              returns (record t { state = dc_inflight })
                (record waiting {
                  ports = record s.ports { distance = c };
                  trace = record s.trace {
                    send_dc = s.trace.send_dc + 1;
                    total_dc_time = sub64 s.trace.total_dc_time current_cycle;
                  };
                  stats = counts_mem3 waiting.stats;
                }))
  distance_part t s dc_inflight =
      if empty s.ports.return_distance
      then goes_on t (distance_waiting s)
      else (get s.ports.return_distance >>= distance_receive t (distance_waiting s))
  distance_part t s _ = goes_on t (distance_waiting s)

  -- One cycle of the insertion into the sorted pool, if it is this task's turn.
  sort_waiting : QeDcTask → DistanceScan → Option (Pass QeDcTask DistanceScan)
  sort_waiting t s =
      let waiting = record s { all_sort_ready = false } in
      if not s.compare_busy && s.prev_sort_finish
      then goes_on (record t { remaining_compare_cycle = t.remaining_compare_cycle - 1 })
          (record waiting {
            compare_busy = true;
            stats = record s.stats {
              stall_mem4 =
                  if s.all_distance_ready then inc64 s.stats.stall_mem4 else s.stats.stall_mem4;
            };
          })
      else goes_on t waiting

  unfoldable pub sort_part :
      QeDcTask → DistanceScan → WhileRequestState → Option (Pass QeDcTask DistanceScan)
  unfolding sort_waiting
  sort_part t s dc_finished =
      if t.remaining_compare_cycle == 0
      then goes_on (record t { state = sort_finished }) s
      else sort_waiting t s
  sort_part t s _ = goes_on t s

  abbrev pub sorted_before : WhileRequestState → Bool → Bool
  sorted_before sort_finished prev = prev
  sorted_before _ prev = false

  -- The body of the loop.
  unfoldable pub task_visit : QeDcTask → DistanceScan → Option (Pass QeDcTask DistanceScan)
  unfolding task_reads mark_read distance_part sort_part
  task_visit t s =
      task_reads t s
      >>> (λ t s. mark_read t s t.state)
      >>> (λ t s. distance_part t s t.state)
      >>> (λ t s. sort_part t s t.state)
      >>> (λ t s.
          goes_on t (record s { prev_sort_finish = sorted_before t.state s.prev_sort_finish }))

-- The statistics of a step of the search that is done.
step_counted : ℕ → Trace → ℕ → Stats → Stats
step_counted current_cycle t unfolded s = record s {
  mem_receive_delta = add64 s.mem_receive_delta (sub64 t.last_return t.first_return);
  mem_receive_count = inc64 s.mem_receive_count;
  sub_mem_receive_delta =
      add64 s.sub_mem_receive_delta (sub64 t.sub_last_return t.sub_first_return);
  sub_mem_receive_count = inc64 s.sub_mem_receive_count;
  unfold_num = add64 s.unfold_num unfolded;
  exe_time = add64 s.exe_time (sub64 current_cycle t.exe_time_start);
}

module _ {R F : Type 0} where
  distance_counted : Engine R F → Stats
  distance_counted e = record e.stats {
    stage5 = inc64 e.stats.stage5;
    stage5_qe0 = if e.qe.qe_name == 0 then inc64 e.stats.stage5_qe0 else e.stats.stage5_qe0;
  }

  unfoldable pub distance_scan : ℕ → Engine R F → Option (Pass (List QeDcTask) DistanceScan)
  unfolding distance_counted
  distance_scan current_cycle e =
      for_each (task_visit current_cycle e.qe.qe_name e.qe.query_id) e.qe.dc_task_list (record {
        vector_read_done = true;
        all_vec_read_ready = true;
        all_distance_ready = true;
        all_sort_ready = true;
        compare_busy = false;
        prev_sort_finish = true;
        ports = e.ports;
        trace = e.trace;
        stats = distance_counted e;
      })

  -- Every distance is known and every insertion made.
  unfoldable pub step_done : ℕ → Engine R F → Bool × Engine R F
  unfolding step_counted
  step_done current_cycle e =
      if e.qe.remaining_cycle == 0
      then (
        true,
        record e {
          qe = record e.qe { dc_task_list = []; query_state = SearchState.query_get_data };
          trace = record e.trace { exe_time_start = 0 };
          stats = step_counted current_cycle e.trace (length e.qe.dc_task_list) e.stats;
        },
      )
      else (
        true,
        record e {
          qe = record e.qe { remaining_cycle = dec32 e.qe.remaining_cycle };
          stats = counts_mem3 e.stats;
        },
      )

  unfoldable pub distance_done :
      ℕ → Engine R F → Pass (List QeDcTask) DistanceScan → Bool × Engine R F
  unfolding step_done
  distance_done current_cycle e p =
      let e' = record e {
        qe = record e.qe { dc_task_list = p.value };
        ports = p.state.ports;
        trace = p.state.trace;
        stats = p.state.stats;
      } in
      if p.returned
      then (true, e')
      else if p.state.all_sort_ready && p.state.all_distance_ready
      then step_done current_cycle e'
      else (false, record e' { stats = record e'.stats { stall_mem2 = inc64 e'.stats.stall_mem2 } })

  -- `case query_pending_distance`.
  unfoldable pub query_pending_distance : ℕ → Engine R F → Option (Bool × Engine R F)
  unfolding distance_done distance_scan
  query_pending_distance current_cycle e =
      distance_scan current_cycle e >>= λ p. some (distance_done current_cycle e p)
