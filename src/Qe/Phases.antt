-- ===== src/Qe/Phases.antt =====
-- The end of `query_pending_edge` in src/qe.cc.
use near_mem_nsg.Base.{
  ℕ, ◌≡◌, refl, sym, subst, inl, inr, Bool, true, false, some, List, arith, ◌==◌, Bool-cases,
  Option-cases, All, inc64,
}
use near_mem_nsg.Struct.{
  SearchState, WhileRequestState, read_not_send, read_inflight, read_finished, dc_inflight,
  dc_finished, sort_finished, QeMemState,
}
use near_mem_nsg.TaskQueue.{full, push}
use near_mem_nsg.TaskQueue.Bounds.{receiver_cases}
use near_mem_nsg.Qe.State.{Index, Config, Engine}
use near_mem_nsg.Qe.Loop.{Pass}
use near_mem_nsg.Qe.Rule.{for_each-ready}
use near_mem_nsg.Qe.Edge.{EdgeScan, edge_visit, edge_scan}
use near_mem_nsg.Qe.Edge
use near_mem_nsg.Qe.Cycle.{do_cycle, by_state, working}

module _ (current_cycle qe_name node_id : ℕ) where
  -- A round that leaves the flag set has met a read that is done.
  edge_visit-done :
      (x : QeMemState) (s : EdgeScan) (r : Pass QeMemState EdgeScan)
      → edge_visit current_cycle qe_name node_id x s ≡ some r
      → r.returned ≡ false
      → r.state.all_edge_read_done ≡ true
      → (s.all_edge_read_done ≡ true) × (r.value.state ≡ read_finished)
  unfolding edge_visit
  edge_visit-done x s r h on ready = by_read x.state refl
    where
      by_read :
          (st : WhileRequestState)
          → x.state ≡ st
          → (s.all_edge_read_done ≡ true) × (r.value.state ≡ read_finished)
      by_read read_finished e = (ground arith, ground arith)
      by_read read_not_send e = elim (Bool-cases (full s.ports.mem)) [
        | inl f ↦ absurd (ground arith)
        | inr f ↦
            elim (Option-cases (
              push
                (record {
                  addr = x.mem_read_addr;
                  is_read = true;
                  qe_name = qe_name;
                  node_id = node_id;
                  is_edge_table = true;
                })
                s.ports.mem)) [
                  | inl faults ↦ absurd (ground arith)
                  | inr (c, g) ↦ absurd (ground arith)
                ]
      ]
      by_read read_inflight e = elim (receiver_cases s.ports.mem_ret) [
        | inl f ↦ absurd (ground arith)
        | inr (y, c, f, g, q) ↦ elim (Bool-cases (y.addr == x.mem_read_addr)) [
          | inl own ↦ absurd (ground arith)
          | inr other ↦ absurd (ground arith)
        ]
      ]
      by_read dc_inflight e = absurd (ground arith)
      by_read dc_finished e = absurd (ground arith)
      by_read sort_finished e = absurd (ground arith)

-- A working engine counts the cycle.
module _ {R F : Type 0} where
  abbrev pub started : Engine R F → Engine R F
  started e = record e { stats = record e.stats { stall_qe = inc64 e.stats.stall_qe } }

module _ {R F : Type 0} (cfg : Config R F) (index : Index R F) (current_cycle : ℕ) where
  edge_done_complete :
      (e : Engine R F) (p : Pass (List QeMemState) EdgeScan)
      → edge_scan current_cycle e ≡ some p
      → e.qe.query_state ≡ SearchState.query_pending_edge
      → (Edge.edge_done current_cycle e p).1.qe.query_state ≡ SearchState.query_pending_distance
      → All
          (λ r. r.state ≡ read_finished)
          (Edge.edge_done current_cycle e p).1.qe.edge_read_task.mem_read_state
  unfolding Edge.edge_done edge_scan
  edge_done_complete e p h w left = elim (Bool-cases p.returned) [
    | inl back ↦ absurd (ground arith)
    | inr on ↦ elim (Bool-cases p.state.all_edge_read_done) [
      | inl ready ↦
          subst (All (λ r. r.state ≡ read_finished)) (ground arith)
            (for_each-ready (edge_visit current_cycle e.qe.qe_name e.qe.edge_read_task.node_id)
              (λ s. s.all_edge_read_done) (λ r. r.state ≡ read_finished)
              (edge_visit-done current_cycle e.qe.qe_name e.qe.edge_read_task.node_id)
              e.qe.edge_read_task.mem_read_state
              (record { all_edge_read_done = true; ports = e.ports; trace = e.trace }) p h on
              ready).1
      | inr wait ↦ absurd (ground arith)
    ]
  ]

  -- An engine that leaves `query_pending_edge` for `query_pending_distance` has got back every read
  -- of the edge list.
  pub edge_reads_complete :
      (e : Engine R F) (b : Bool) (e' : Engine R F)
      → do_cycle cfg index current_cycle e ≡ some (b, e')
      → e.qe.query_state ≡ SearchState.query_pending_edge
      → e'.qe.query_state ≡ SearchState.query_pending_distance
      → All (λ r. r.state ≡ read_finished) e'.qe.edge_read_task.mem_read_state
  unfolding do_cycle working by_state Edge.query_pending_edge
  edge_reads_complete e b e' h w left = elim (Option-cases (edge_scan current_cycle (started e))) [
    | inl faults ↦ absurd (ground arith)
    | inr (p, scan) ↦
        subst (λ t. All (λ r. r.state ≡ read_finished) t.qe.edge_read_task.mem_read_state)
          (concluded p scan)
          (edge_done_complete (started e) p scan w (
            subst (λ t. t.qe.query_state ≡ SearchState.query_pending_distance)
              (sym (concluded p scan)) left))
  ]
    where
      concluded :
          (p : Pass (List QeMemState) EdgeScan)
          → edge_scan current_cycle (started e) ≡ some p
          → (Edge.edge_done current_cycle (started e) p).1 ≡ e'
      concluded p scan = ground arith
