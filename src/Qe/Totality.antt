-- ===== src/Qe/Totality.antt =====
-- The cycles of a query engine of src/qe.cc do not fault.
use near_mem_nsg.Base.{
  ℕ, suc, ◌≤◌, ◌<◌, ◌≡◌, refl, ◌≢◌, inl, inr, true, Option, none, some, arith, ltb, ◌==◌, ltb→lt,
  Bool-cases, Option-cases, length, take, length-take, inc64,
}
use near_mem_nsg.Struct.{
  SearchState, RequestState, not_send, inflight, finished, WhileRequestState, QeMemState, QeDcTask,
}
use near_mem_nsg.TaskQueue.{full, push}
use near_mem_nsg.TaskQueue.Bounds.{receiver_cases}
use near_mem_nsg.Qe.State.{Index, Config, Engine}
use near_mem_nsg.Qe.Loop.{Pass, ◌>>>◌}
use near_mem_nsg.Qe.Rule.{for_each-total, for_each-within}
use near_mem_nsg.Qe.Init
use near_mem_nsg.Qe.Init.{InitScan, init_request, matches, fetch}
use near_mem_nsg.Qe.Edge.{EdgeScan, edge_visit}
use near_mem_nsg.Qe.Edge
use near_mem_nsg.Qe.Vector.{DistanceScan, vec_visit}
use near_mem_nsg.Qe.Distance.{task_visit, task_reads, mark_read, distance_part, sort_part}
use near_mem_nsg.Qe.Distance
use near_mem_nsg.Qe.Cycle.{do_cycle, by_state, working}

module _ (qe_name query_id : ℕ) (node_id : ℕ → Option ℕ) where
  -- A round with an entry for the id does not fault, and counts.
  init_request-answers :
      (x : RequestState) (s : InitScan) (id : ℕ)
      → node_id s.i ≡ some id
      → (r : Pass RequestState InitScan) × (init_request qe_name query_id node_id x s ≡ some r)
        × (r.state.i ≤ suc s.i)
  unfolding init_request push full
  init_request-answers x s id at = elim (Option-cases (init_request qe_name query_id node_id x s)) [
    | inl fault ↦ absurd (answers x fault)
    | inr (r, h) ↦ (r, h, counts x r h)
  ]
    where
      answers : (x : RequestState) → init_request qe_name query_id node_id x s ≢ none
      answers finished = ground arith
      answers not_send = ground (arith, at)
      answers inflight = elim (receiver_cases s.ports.return_distance) [
        | inl f ↦ ground arith
        | inr (y, c, f, g, q) ↦ elim (Bool-cases (matches qe_name query_id id y)) [
          | inl own ↦ ground (arith, at)
          | inr other ↦ ground (arith, at)
        ]
      ]

      counts :
          (x : RequestState) (r : Pass RequestState InitScan)
          → init_request qe_name query_id node_id x s ≡ some r
          → r.state.i ≤ suc s.i
      counts finished r h = ground arith
      counts not_send r h = ground (arith, at)
      counts inflight r h = elim (receiver_cases s.ports.return_distance) [
        | inl f ↦ ground arith
        | inr (y, c, f, g, q) ↦ elim (Bool-cases (matches qe_name query_id id y)) [
          | inl own ↦ ground (arith, at)
          | inr other ↦ ground (arith, at)
        ]
      ]

module _ (current_cycle qe_name node_id : ℕ) where
  edge_visit-total :
      (x : QeMemState) (s : EdgeScan) → edge_visit current_cycle qe_name node_id x s ≢ none
  unfolding edge_visit push full
  edge_visit-total x s = elim (receiver_cases s.ports.mem_ret) [
    | inl f ↦ ground arith
    | inr (y, c, f, g, q) ↦ elim (Bool-cases (y.addr == x.mem_read_addr)) [
      | inl own ↦ ground arith
      | inr other ↦ ground arith
    ]
  ]

  vec_visit-total :
      (x : QeMemState) (s : DistanceScan) → vec_visit current_cycle qe_name node_id x s ≢ none
  unfolding vec_visit push full
  vec_visit-total x s = elim (receiver_cases s.ports.mem_ret) [
    | inl f ↦ ground arith
    | inr (y, c, f, g, q) ↦ elim (Bool-cases (y.addr == x.mem_read_addr)) [
      | inl own ↦ ground arith
      | inr other ↦ ground arith
    ]
  ]

then-total {ℓ κ} :
    {A : Type ℓ} {S : Type κ} (m : Option (Pass A S)) (k : A → S → Option (Pass A S))
    → m ≢ none
    → ((x : A) (s : S) → k x s ≢ none)
    → (m >>> k) ≢ none
then-total none k h g = λ _. h refl
then-total (some p) k h g = ground (arith, g p.value p.state)

module _ (current_cycle qe_name query_id : ℕ) where
  reads-total :
      (t : QeDcTask) (s : DistanceScan) → task_reads current_cycle qe_name query_id t s ≢ none
  unfolding task_reads
  reads-total t s = ground (
    arith,
    for_each-total (vec_visit current_cycle qe_name t.node_id)
        (vec_visit-total current_cycle qe_name t.node_id) t.mem_read_state
        (record s { vector_read_done = true }),
  )

  mark-total :
      (t : QeDcTask) (s : DistanceScan) (st : WhileRequestState)
      → mark_read current_cycle qe_name query_id t s st ≢ none
  unfolding mark_read
  mark-total t s st = ground arith

  distance-total :
      (t : QeDcTask) (s : DistanceScan) (st : WhileRequestState)
      → distance_part current_cycle qe_name query_id t s st ≢ none
  unfolding distance_part push full
  distance-total t s st = elim (receiver_cases s.ports.return_distance) [
    | inl f ↦ ground arith
    | inr (y, c, f, g, q) ↦ elim (Bool-cases (matches qe_name query_id t.node_id y)) [
      | inl own ↦ ground arith
      | inr other ↦ ground arith
    ]
  ]

  sort-total :
      (t : QeDcTask) (s : DistanceScan) (st : WhileRequestState)
      → sort_part current_cycle qe_name query_id t s st ≢ none
  unfolding sort_part
  sort-total t s st = ground arith

  task_visit-total :
      (t : QeDcTask) (s : DistanceScan) → task_visit current_cycle qe_name query_id t s ≢ none
  unfolding task_visit
  task_visit-total t s =
      then-total _ _
        (then-total _ _
          (then-total _ _ (then-total _ _ (reads-total t s) (λ x u. mark-total x u x.state))
            (λ x u. distance-total x u x.state))
          (λ x u. sort-total x u x.state))
        (λ x u. ground arith)

module _ {R F : Type 0} (cfg : Config R F) (index : Index R F) (current_cycle : ℕ) where
  -- The index has an entry for each of the first `L`, and `NewSearchInit` does not fault.
  abbrev pub CanStart : Engine R F → Type 0
  CanStart e =
      ((i : ℕ) → i < cfg.l → (id : ℕ) × (index.node_id e.qe.retset i ≡ some id))
      × (index.new_search_init e.qe.init_ids e.qe.retset e.qe.query_id ≢ none)

  init_scan-total :
      (e : Engine R F)
      → cfg.l ≤ length e.qe.init_dc_state
      → CanStart e
      → Init.init_scan cfg index e ≢ none
  unfolding Init.init_scan
  init_scan-total e long can = elim (Bool-cases (ltb (length e.qe.init_dc_state) cfg.l)) [
    | inl short ↦ absurd (ground (arith, ltb→lt (length e.qe.init_dc_state) cfg.l short))
    | inr fits ↦ ground (
      arith,
      for_each-within (init_request e.qe.qe_name e.qe.query_id (index.node_id e.qe.retset))
          (λ s. s.i) cfg.l
          (λ x s h.
            let (id, at) = can.0 s.i h in
            init_request-answers e.qe.qe_name e.qe.query_id (index.node_id e.qe.retset) x s id at)
          (take cfg.l e.qe.init_dc_state) (record { i = 0; dc_ready_all = true; ports = e.ports })
          (omega (arith, length-take e.qe.init_dc_state cfg.l long)),
    )
  ]

  pub init-total :
      (e : Engine R F)
      → cfg.l ≤ length e.qe.init_dc_state
      → CanStart e
      → Init.query_init cfg index e ≢ none
  unfolding Init.query_init Init.init_stage Init.init_filled
  init-total e long can = elim (Option-cases (Init.init_scan cfg index e)) [
    | inl fault ↦ absurd (init_scan-total e long can fault)
    | inr (p, h) ↦ elim (Bool-cases p.returned) [
      | inl back ↦ ground arith
      | inr on ↦ elim (Bool-cases p.state.dc_ready_all) [
        | inl ready ↦
            elim (Option-cases (index.new_search_init e.qe.init_ids e.qe.retset e.qe.query_id)) [
              | inl fault ↦ absurd (can.1 fault)
              | inr (r, g) ↦ ground arith
            ]
        | inr wait ↦ ground arith
      ]
    ]
  ]

  pub init_finish-total : (e : Engine R F) → Init.query_init_finish cfg index e ≢ none
  unfolding Init.query_init_finish
  init_finish-total e = ground arith

  pub edge-total : (e : Engine R F) → Edge.query_pending_edge current_cycle e ≢ none
  unfolding Edge.query_pending_edge Edge.edge_scan
  edge-total e = ground (
    arith,
    for_each-total (edge_visit current_cycle e.qe.qe_name e.qe.edge_read_task.node_id)
        (edge_visit-total current_cycle e.qe.qe_name e.qe.edge_read_task.node_id)
        e.qe.edge_read_task.mem_read_state
        (record { all_edge_read_done = true; ports = e.ports; trace = e.trace }),
  )

  scan-total : (e : Engine R F) → Distance.distance_scan current_cycle e ≢ none
  unfolding Distance.distance_scan
  scan-total e =
      for_each-total (task_visit current_cycle e.qe.qe_name e.qe.query_id)
        (task_visit-total current_cycle e.qe.qe_name e.qe.query_id) e.qe.dc_task_list _

  pub distance_stage-total :
      (e : Engine R F) → Distance.query_pending_distance current_cycle e ≢ none
  unfolding Distance.query_pending_distance
  distance_stage-total e = ground (arith, scan-total e)

  pub fetch-total : (e : Engine R F) → cfg.l ≤ length e.qe.init_dc_state → fetch cfg index e ≢ none
  unfolding fetch
  fetch-total e long = elim (receiver_cases e.ports.tasks) [
    | inl f ↦ ground arith
    | inr (x, c, f, g, q) ↦ elim (Bool-cases (ltb (length e.qe.init_dc_state) cfg.l)) [
      | inl short ↦ absurd (ground (arith, ltb→lt (length e.qe.init_dc_state) cfg.l short))
      | inr fits ↦ ground arith
    ]
  ]

  -- Where an engine has a state for each of the `L` initial entries and, in `query_init`, the index
  -- has these entries and its `NewSearchInit` does not fault: a cycle of the engine fails no
  -- assertion, pops no empty channel and stays within its vectors, in every state but
  -- `query_get_data`, where it depends on what the index answers.
  pub do_cycle-total :
      (e : Engine R F)
      → cfg.l ≤ length e.qe.init_dc_state
      → (e.qe.query_state ≡ SearchState.query_init → CanStart e)
      → e.qe.query_state ≢ SearchState.query_get_data
      → do_cycle cfg index current_cycle e ≢ none
  unfolding do_cycle by_state working
  do_cycle-total e long can other = by_query_state e.qe.query_state refl
    where
      started : Engine R F
      started = record e { stats = record e.stats { stall_qe = inc64 e.stats.stall_qe } }

      by_query_state :
          (st : SearchState) → e.qe.query_state ≡ st → do_cycle cfg index current_cycle e ≢ none
      by_query_state SearchState.query_init w = ground (arith, init-total started long (can w))
      by_query_state SearchState.query_init_finish w = ground (arith, init_finish-total started)
      by_query_state SearchState.query_get_data w = absurd (other w)
      by_query_state SearchState.query_pending_edge w = ground (arith, edge-total started)
      by_query_state SearchState.query_pending_distance w =
          ground (arith, distance_stage-total started)
      by_query_state SearchState.query_finish w = ground (arith, fetch-total e long)
