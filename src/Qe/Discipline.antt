-- ===== src/Qe/Discipline.antt =====
-- What one cycle of a query engine of src/qe.cc does with its channels.
use near_mem_nsg.Base.{
  ℕ, ◌≡◌, refl, sym, subst, ◌⊎◌, inl, inr, Bool, true, false, ◌&&◌, Option, none, some, List, [],
  ◌∷◌, arith, ltb, ◌==◌, Bool-cases, Option-cases, ◌>>=◌, length, take, inc64,
}
use near_mem_nsg.Struct.{
  SearchState, query_init, query_init_finish, query_get_data, query_pending_edge,
  query_pending_distance, query_finish, RequestState, QeMemState, QeDcTask,
}
use near_mem_nsg.TaskQueue.Bounds.{receiver_cases}
use near_mem_nsg.Qe.State.{Ports, SearchStep, Index, Config, Engine}
use near_mem_nsg.Qe.Loop.{Pass, for_each}
use near_mem_nsg.Qe.Moves.{Move, Moved, for_each-Moves}
use near_mem_nsg.Qe.Rounds.{init_request-Moves, edge_visit-Moves, task_visit-Moves}
use near_mem_nsg.Qe.Init
use near_mem_nsg.Qe.GetData
use near_mem_nsg.Qe.GetData.{make_tasks}
use near_mem_nsg.Mapping.{address_mapping}
use near_mem_nsg.Qe.Edge
use near_mem_nsg.Qe.Edge.{EdgeScan, edge_visit, edge_scan}
use near_mem_nsg.Qe.Init.{init_request}
use near_mem_nsg.Qe.Distance.{task_visit, distance_scan}
use near_mem_nsg.Qe.Distance
use near_mem_nsg.Qe.Vector.{DistanceScan}
use near_mem_nsg.Qe.Cycle.{do_cycle, by_state, working}

-- At most one operation on the channels.
abbrev pub AtMostOne : ℕ → ℕ → Ports → Ports → Type 0
AtMostOne qe_name query_id p q = (q ≡ p) ⊎ Move qe_name query_id p q

at_most_one :
    (qe_name query_id : ℕ) (p : Ports) (b : Bool) (q : Ports)
    → Moved qe_name query_id p b q
    → AtMostOne qe_name query_id p q
at_most_one qe_name query_id p true q m = inr m
at_most_one qe_name query_id p false q e = inl e

-- What holds of every result of a stage that scans and then concludes.
pub stage_by :
    {P E : Type 0} (m : Option P) (f : P → Bool × E) (Q : E → Type 0)
    → ((p : P) → m ≡ some p → Q (f p).1)
    → (b : Bool) (e' : E) → (m >>= λ p. some (f p)) ≡ some (b, e')
    → Q e'
stage_by none f Q h b e' g = absurd (ground arith)
stage_by (some p) f Q h b e' g = subst Q same (h p refl)
  where
    same : (f p).1 ≡ e'
    same = ground arith

module _ {R F : Type 0} (cfg : Config R F) (index : Index R F) where
  -- The parts of `query_init`.
  pub init_stage-cases :
      (e : Engine R F) (p : Pass (List RequestState) Init.InitScan) (r : R)
      → Init.init_stage cfg index e ≡ some (p, r)
      → (Init.init_scan cfg index e ≡ some p) × (Init.init_filled cfg index e p ≡ some r)
  unfolding Init.init_stage
  init_stage-cases e p r h = elim (Option-cases (Init.init_scan cfg index e)) [
    | inl fault ↦ absurd (ground arith)
    | inr (q, g) ↦ elim (Option-cases (Init.init_filled cfg index e q)) [
      | inl fault ↦ absurd (ground arith)
      | inr (r', g') ↦ (ground arith, ground arith)
    ]
  ]

module _ {R F : Type 0} (cfg : Config R F) (index : Index R F) (current_cycle : ℕ) where
  abbrev AtMost : Engine R F → Ports → Type 0
  AtMost e q = AtMostOne e.qe.qe_name e.qe.query_id e.ports q

  init-scan-Moves :
      (e : Engine R F) (p : Pass (List RequestState) Init.InitScan)
      → Init.init_scan cfg index e ≡ some p
      → AtMost e p.state.ports
  unfolding Init.init_scan
  init-scan-Moves e p h = elim (Bool-cases (ltb (length e.qe.init_dc_state) cfg.l)) [
    | inl short ↦ absurd (ground arith)
    | inr fits ↦ at_most_one e.qe.qe_name e.qe.query_id e.ports p.returned p.state.ports (
        for_each-Moves (λ t. t.ports) e.qe.qe_name e.qe.query_id
          (init_request e.qe.qe_name e.qe.query_id (index.node_id e.qe.retset))
          (init_request-Moves e.qe.qe_name e.qe.query_id (index.node_id e.qe.retset))
          (take cfg.l e.qe.init_dc_state) (record { i = 0; dc_ready_all = true; ports = e.ports }) p
          (scanned fits))
  ]
    where
      scanned :
          ltb (length e.qe.init_dc_state) cfg.l ≡ false
          → for_each
              (init_request e.qe.qe_name e.qe.query_id (index.node_id e.qe.retset))
              (take cfg.l e.qe.init_dc_state)
              (record { i = 0; dc_ready_all = true; ports = e.ports })
            ≡ some p
      scanned fits = ground arith

  init_done-ports :
      (e : Engine R F) (p : Pass (List RequestState) Init.InitScan) (r : R)
      → (Init.init_done cfg index e (p, r)).1.ports ≡ p.state.ports
  unfolding Init.init_done
  init_done-ports e p r = elim (Bool-cases p.returned) [
    | inl back ↦ rw back refl
    | inr on ↦ elim (Bool-cases p.state.dc_ready_all) [
      | inl ready ↦ rw (on, ready) refl
      | inr wait ↦ rw (on, wait) refl
    ]
  ]

  query_init-AtMost :
      (e : Engine R F) (b : Bool) (e' : Engine R F)
      → Init.query_init cfg index e ≡ some (b, e')
      → AtMost e e'.ports
  unfolding Init.query_init
  query_init-AtMost e b e' =
      stage_by (Init.init_stage cfg index e) (Init.init_done cfg index e) (λ e'. AtMost e e'.ports)
        (λ (p, r) h.
          subst (AtMost e) (sym (init_done-ports e p r))
            (init-scan-Moves e p (init_stage-cases cfg index e p r h).0))
        b e'

  edge-scan-Moves :
      (e : Engine R F) (p : Pass (List QeMemState) EdgeScan)
      → edge_scan current_cycle e ≡ some p
      → AtMost e p.state.ports
  unfolding edge_scan
  edge-scan-Moves e p h = at_most_one e.qe.qe_name e.qe.query_id e.ports p.returned p.state.ports (
      for_each-Moves (λ t. t.ports) e.qe.qe_name e.qe.query_id
        (edge_visit current_cycle e.qe.qe_name e.qe.edge_read_task.node_id)
        (edge_visit-Moves current_cycle e.qe.qe_name e.qe.query_id e.qe.edge_read_task.node_id)
        e.qe.edge_read_task.mem_read_state
        (record { all_edge_read_done = true; ports = e.ports; trace = e.trace }) p h)

  edge_done-ports :
      (e : Engine R F) (p : Pass (List QeMemState) EdgeScan)
      → (Edge.edge_done current_cycle e p).1.ports ≡ p.state.ports
  unfolding Edge.edge_done
  edge_done-ports e p = elim (Bool-cases p.returned) [
    | inl back ↦ rw back refl
    | inr on ↦ elim (Bool-cases p.state.all_edge_read_done) [
      | inl ready ↦ rw (on, ready) refl
      | inr wait ↦ rw (on, wait) refl
    ]
  ]

  edge-AtMost :
      (e : Engine R F) (b : Bool) (e' : Engine R F)
      → Edge.query_pending_edge current_cycle e ≡ some (b, e')
      → AtMost e e'.ports
  unfolding Edge.query_pending_edge
  edge-AtMost e b e' =
      stage_by (edge_scan current_cycle e) (Edge.edge_done current_cycle e)
        (λ e'. AtMost e e'.ports)
        (λ p h. subst (AtMost e) (sym (edge_done-ports e p)) (edge-scan-Moves e p h)) b e'

  distance-scan-Moves :
      (e : Engine R F) (p : Pass (List QeDcTask) DistanceScan)
      → distance_scan current_cycle e ≡ some p
      → AtMost e p.state.ports
  unfolding distance_scan
  distance-scan-Moves e p h =
      at_most_one e.qe.qe_name e.qe.query_id e.ports p.returned p.state.ports (
        for_each-Moves (λ t. t.ports) e.qe.qe_name e.qe.query_id
          (task_visit current_cycle e.qe.qe_name e.qe.query_id)
          (task_visit-Moves current_cycle e.qe.qe_name e.qe.query_id) e.qe.dc_task_list _ p h)

  step_done-ports : (e : Engine R F) → (Distance.step_done current_cycle e).1.ports ≡ e.ports
  unfolding Distance.step_done
  step_done-ports e = elim (Bool-cases (e.qe.remaining_cycle == 0)) [
    | inl now ↦ rw now refl
    | inr wait ↦ rw wait refl
  ]

  distance_done-ports :
      (e : Engine R F) (p : Pass (List QeDcTask) DistanceScan)
      → (Distance.distance_done current_cycle e p).1.ports ≡ p.state.ports
  unfolding Distance.distance_done
  distance_done-ports e p = elim (Bool-cases p.returned) [
    | inl back ↦ rw back refl
    | inr on ↦ elim (Bool-cases (p.state.all_sort_ready && p.state.all_distance_ready)) [
      | inl ready ↦ rw (on, ready) (step_done-ports _)
      | inr wait ↦ rw (on, wait) refl
    ]
  ]

  distance-AtMost :
      (e : Engine R F) (b : Bool) (e' : Engine R F)
      → Distance.query_pending_distance current_cycle e ≡ some (b, e')
      → AtMost e e'.ports
  unfolding Distance.query_pending_distance
  distance-AtMost e b e' =
      stage_by (distance_scan current_cycle e) (Distance.distance_done current_cycle e)
        (λ e'. AtMost e e'.ports)
        (λ p h. subst (AtMost e) (sym (distance_done-ports e p)) (distance-scan-Moves e p h)) b e'

  init_finish-ports :
      (e : Engine R F) (b : Bool) (e' : Engine R F)
      → Init.query_init_finish cfg index e ≡ some (b, e')
      → e'.ports ≡ e.ports
  unfolding Init.query_init_finish
  init_finish-ports e b e' h = elim (Bool-cases (e.qe.remaining_cycle == 0)) [
    | inl now ↦ ground arith
    | inr wait ↦ ground arith
  ]

  issue-ports :
      (e : Engine R F) (st : SearchStep R F) (b : Bool) (e' : Engine R F)
      → GetData.issue cfg index current_cycle e st ≡ some (b, e')
      → e'.ports ≡ e.ports
  unfolding GetData.issue
  issue-ports e st b e' h =
      elim (Option-cases (address_mapping cfg.layout index.edges st.edge_table_id true [] 0)) [
        | inl faults ↦ absurd (ground arith)
        | inr ((addrs, lines), edges) ↦
            elim (Option-cases (
              make_tasks cfg index e.qe.qe_name e.qe.query_id st.target_ids st.compare_latency 0)) [
                | inl faults ↦ absurd (ground arith)
                | inr ((tasks, total), vectors) ↦ ground arith
              ]
      ]

  by_step-ports :
      (e : Engine R F) (st : SearchStep R F) (k : Option ℕ) (ids : List ℕ) (b : Bool)
      (e' : Engine R F)
      → GetData.by_step cfg index current_cycle e st k ids ≡ some (b, e')
      → e'.ports ≡ e.ports
  unfolding GetData.by_step
  by_step-ports e st none ids b e' h = ground arith
  by_step-ports e st (some k) [] b e' h = ground arith
  by_step-ports e st (some k) (id ∷ ids) b e' h = issue-ports e st b e' h

  get_data-ports :
      (e : Engine R F) (b : Bool) (e' : Engine R F)
      → GetData.query_get_data cfg index current_cycle e ≡ some (b, e')
      → e'.ports ≡ e.ports
  unfolding GetData.query_get_data
  get_data-ports e b e' h = by_step-ports e _ _ _ b e' h

  fetch-AtMost :
      (e : Engine R F) (b : Bool) (e' : Engine R F)
      → Init.fetch cfg index e ≡ some (b, e')
      → AtMost e e'.ports
  unfolding Init.fetch
  fetch-AtMost e b e' h = elim (receiver_cases e.ports.tasks) [
    | inl none_there ↦ inl (ground arith)
    | inr (x, c, there, g, q) ↦ elim (Bool-cases (ltb (length e.qe.init_dc_state) cfg.l)) [
      | inl short ↦ absurd (ground arith)
      | inr fits ↦
          inr
            (subst (Move e.qe.qe_name e.qe.query_id e.ports) (ground arith) (Move.take_query x c q))
    ]
  ]

  -- A cycle of an engine that does not fault performs at most one operation on its channels: it
  -- takes a query, sends a distance task with its own name and query or a read with its own name,
  -- takes a result of its own query, or takes a returned read.
  pub do_cycle-AtMostOne :
      (e : Engine R F) (b : Bool) (e' : Engine R F)
      → do_cycle cfg index current_cycle e ≡ some (b, e')
      → AtMostOne e.qe.qe_name e.qe.query_id e.ports e'.ports
  unfolding do_cycle by_state working
  do_cycle-AtMostOne e b e' h = by_query_state e.qe.query_state refl
    where
      started : Engine R F
      started = record e { stats = record e.stats { stall_qe = inc64 e.stats.stall_qe } }

      by_query_state : (st : SearchState) → e.qe.query_state ≡ st → AtMost e e'.ports
      by_query_state query_init w = query_init-AtMost started b e' (ground arith)
      by_query_state query_init_finish w = inl (init_finish-ports started b e' (ground arith))
      by_query_state query_get_data w = inl (get_data-ports started b e' (ground arith))
      by_query_state query_pending_edge w = edge-AtMost started b e' (ground arith)
      by_query_state query_pending_distance w = distance-AtMost started b e' (ground arith)
      by_query_state query_finish w = fetch-AtMost e b e' (ground arith)
