-- ===== src/Qe/Init.antt =====
-- The first states of `Query_Engine::do_cycle` in src/qe.cc: fetching a query, the distances of its
-- initial ids (`query_init`), and the cost of sorting them (`query_init_finish`).
use near_mem_nsg.Base.{
  ℕ, ◌+◌, Bool, true, false, ◌&&◌, Option, none, some, List, [], ◌++◌, ltb, ◌==◌, if◌then◌else◌,
  ◌>>=◌, length, take, drop, replicate, dec32, inc64,
}
use near_mem_nsg.Struct.{SearchState, RequestState, not_send, inflight, finished, DistanceTask}
use near_mem_nsg.TaskQueue.{full, push, empty, get, pop}
use near_mem_nsg.Qe.State.{Ports, Stats, Index, Config, QueryEngine, Engine}
use near_mem_nsg.Qe.Loop.{Pass, goes_on, returns, for_each}

-- A distance task is the one that an engine waits for.
abbrev pub matches : ℕ → ℕ → ℕ → DistanceTask → Bool
matches qe_name query_id node_id t =
    t.qe_name == qe_name && (t.query_id == query_id && t.node_id == node_id)

-- The local variables of the loop over the initial ids, with the channels.
pub record InitScan : Type 0 where
  pub i : ℕ
  pub dc_ready_all : Bool
  pub ports : Ports

abbrev pub next_id : InitScan → InitScan
next_id s = record s { i = s.i + 1 }

module _ (qe_name query_id : ℕ) (node_id : ℕ → Option ℕ) where
  -- A result is taken if it is the one for this entry.
  init_receive : InitScan → DistanceTask → Option (Pass RequestState InitScan)
  init_receive s top = node_id s.i >>= λ id.
      if matches qe_name query_id id top
      then (pop s.ports.return_distance >>= λ (_, c).
          returns finished (record s { ports = record s.ports { return_distance = c } }))
      else goes_on inflight (next_id s)

  -- The body of the loop, by `init_dc_state[i]`.
  unfoldable pub init_request : RequestState → InitScan → Option (Pass RequestState InitScan)
  unfolding init_receive
  init_request finished s = goes_on finished (next_id s)
  init_request not_send s =
      let waiting = record s { dc_ready_all = false } in
      if full s.ports.distance
      then goes_on not_send (next_id waiting)
      else (node_id s.i >>= λ id.
          push (record { qe_name = qe_name; query_id = query_id; node_id = id }) s.ports.distance
          >>= λ c. returns inflight (record waiting { ports = record s.ports { distance = c } }))
  init_request inflight s =
      let waiting = record s { dc_ready_all = false } in
      if empty s.ports.return_distance
      then goes_on inflight (next_id waiting)
      else (get s.ports.return_distance >>= init_receive waiting)

module _ {R F : Type 0} (cfg : Config R F) (index : Index R F) where
  -- `init_dc_state` has a fixed length, and the loops go through its first `L` entries.
  unfoldable pub init_scan : Engine R F → Option (Pass (List RequestState) InitScan)
  init_scan e =
      if ltb (length e.qe.init_dc_state) cfg.l
      then none
      else for_each (init_request e.qe.qe_name e.qe.query_id (index.node_id e.qe.retset))
          (take cfg.l e.qe.init_dc_state) (record { i = 0; dc_ready_all = true; ports = e.ports })

  init_counted : Engine R F → Stats
  init_counted e = record e.stats {
    stage1 = inc64 e.stats.stage1;
    stage1_qe0 = if e.qe.qe_name == 0 then inc64 e.stats.stage1_qe0 else e.stats.stage1_qe0;
  }

  -- The result set that a pass leaves: `NewSearchInit` fills it when all distances are there.
  unfoldable pub init_filled : Engine R F → Pass (List RequestState) InitScan → Option R
  init_filled e p =
      if p.returned
      then some e.qe.retset
      else if p.state.dc_ready_all
      then index.new_search_init e.qe.init_ids e.qe.retset e.qe.query_id
      else some e.qe.retset

  -- The loop, and the call of the index after it.
  unfoldable pub init_stage : Engine R F → Option (Pass (List RequestState) InitScan × R)
  unfolding init_scan init_filled
  init_stage e = init_scan e >>= λ p. init_filled e p >>= λ r. some (p, r)

  unfoldable pub init_done : Engine R F → Pass (List RequestState) InitScan × R → Bool × Engine R F
  unfolding init_counted
  init_done e (p, r) =
      let states = p.value ++ drop cfg.l e.qe.init_dc_state in
      let e' = record e {
        qe = record e.qe { init_dc_state = states };
        ports = p.state.ports;
        stats = init_counted e;
      } in
      if p.returned
      then (true, e')
      else if p.state.dc_ready_all
      then (
        false,
        record e' {
          qe = record e'.qe {
            query_state = SearchState.query_init_finish;
            retset = r;
            remaining_cycle = 460;
          };
        },
      )
      else (false, record e' { stats = record e'.stats { stall_dc1 = inc64 e'.stats.stall_dc1 } })

  -- `case query_init`.
  unfoldable pub query_init : Engine R F → Option (Bool × Engine R F)
  unfolding init_stage init_done
  query_init e = init_stage e >>= λ p. some (init_done e p)

  -- `case query_init_finish`.
  unfoldable pub query_init_finish : Engine R F → Option (Bool × Engine R F)
  query_init_finish e =
      let stats = record e.stats {
        stage2 = inc64 e.stats.stage2;
        stage2_qe0 = if e.qe.qe_name == 0 then inc64 e.stats.stage2_qe0 else e.stats.stage2_qe0;
      } in
      if e.qe.remaining_cycle == 0
      then some (
        true,
        record e {
          qe = record e.qe {
            while_k = some 0;
            query_state = SearchState.query_get_data;
            dc_task_list = [];
          };
          stats = stats;
        },
      )
      else some (
        true,
        record e {
          qe = record e.qe { remaining_cycle = dec32 e.qe.remaining_cycle };
          stats = stats;
        },
      )

  -- A query is taken over: its id, and the initial values of the search.
  fetched : Engine R F → ℕ → QueryEngine R F
  fetched e query_id = record e.qe {
    query_id = query_id;
    query_state = SearchState.query_init;
    retset = cfg.global_retset;
    init_ids = cfg.global_init_ids;
    flags = cfg.global_flags;
    init_dc_state = replicate cfg.l not_send ++ drop cfg.l e.qe.init_dc_state;
  }

  -- The branch of `do_cycle` for an engine that is not working.
  unfoldable pub fetch : Engine R F → Option (Bool × Engine R F)
  unfolding fetched
  fetch e =
      let stats = record e.stats {
        stage7 = inc64 e.stats.stage7;
        stage7_qe0 = if e.qe.qe_name == 0 then inc64 e.stats.stage7_qe0 else e.stats.stage7_qe0;
      } in
      if empty e.ports.tasks
      then some (false, record e { stats = stats })
      else if ltb (length e.qe.init_dc_state) cfg.l
      then none
      else (pop e.ports.tasks >>= λ (task, c). some (
        true,
        record e {
          qe = fetched e task.query_id;
          ports = record e.ports { tasks = c };
          stats = stats;
        },
      ))
