-- ===== src/Qe/Rounds.antt =====
-- The rounds of the loops of src/qe.cc: each goes on with the channels as they were, or returns
-- after one operation on one of them.
use near_mem_nsg.Base.{
  ℕ, ◌≡◌, refl, inl, inr, true, not, ◌&&◌, Option, List, arith, ◌==◌, Bool-cases, Option-cases,
}
use near_mem_nsg.Struct.{
  RequestState, not_send, inflight, finished, WhileRequestState, read_not_send, read_inflight,
  read_finished, dc_inflight, dc_finished, DistanceTask, QeMemState, QeDcTask,
}
use near_mem_nsg.TaskQueue.{full, push}
use near_mem_nsg.TaskQueue.Bounds.{receiver_cases}
use near_mem_nsg.Qe.Loop.{Pass, ◌>>>◌, for_each}
use near_mem_nsg.Qe.Moves.{Move, PassMoves, moves_by, moves_then, for_each-Moves}
use near_mem_nsg.Qe.Init.{matches, InitScan, init_request}
use near_mem_nsg.Qe.Edge.{EdgeScan, edge_visit}
use near_mem_nsg.Qe.Vector.{DistanceScan, vec_visit}
use near_mem_nsg.Qe.Distance.{task_visit, task_reads, mark_read, distance_part, sort_part}

-- The task that an engine waits for is its own.
matches-own :
    (qe_name query_id node_id : ℕ) (t : DistanceTask)
    → matches qe_name query_id node_id t ≡ true
    → (t.qe_name ≡ qe_name) × (t.query_id ≡ query_id)
matches-own qe_name query_id node_id t h = ground arith

module _ (qe_name query_id : ℕ) (node_id : ℕ → Option ℕ) where
  pub init_request-Moves :
      (st : RequestState) (s : InitScan)
      → PassMoves
          (λ t. t.ports)
          qe_name
          query_id
          s.ports
          (init_request qe_name query_id node_id st s)
  unfolding init_request
  init_request-Moves finished s = refl
  init_request-Moves not_send s = elim (Bool-cases (full s.ports.distance)) [
    | inl h ↦ rw h refl
    | inr h ↦ elim (Option-cases (node_id s.i)) [
      | inl absent ↦ rw (h, absent) tt
      | inr (id, at) ↦
          rw (h, at)
            (moves_by (λ t. t.ports) qe_name query_id s.ports (push _ s.ports.distance) _
              (λ c e. Move.send_distance _ c e refl refl))
    ]
  ]
  init_request-Moves inflight s = elim (receiver_cases s.ports.return_distance) [
    | inl h ↦ rw h refl
    | inr (x, c, h, g, q) ↦ elim (Option-cases (node_id s.i)) [
      | inl absent ↦ rw (h, g, absent) tt
      | inr (id, at) ↦ elim (Bool-cases (matches qe_name query_id id x)) [
        | inl own ↦
            let (e, e') = matches-own qe_name query_id id x own in
            rw (h, g, at, own, q) (Move.take_distance x c q e e')
        | inr other ↦ rw (h, g, at, other) refl
      ]
    ]
  ]

module _ (current_cycle qe_name query_id node_id : ℕ) where
  pub edge_visit-Moves :
      (r : QeMemState) (s : EdgeScan)
      → PassMoves
          (λ t. t.ports)
          qe_name
          query_id
          s.ports
          (edge_visit current_cycle qe_name node_id r s)
  unfolding edge_visit
  edge_visit-Moves r s = by_state r.state refl
    where
      by_state :
          (st : WhileRequestState)
          → r.state ≡ st
          → PassMoves
              (λ t. t.ports)
              qe_name
              query_id
              s.ports
              (edge_visit current_cycle qe_name node_id r s)
      by_state read_not_send e = elim (Bool-cases (full s.ports.mem)) [
        | inl h ↦ rw (e, edge_visit, h) refl
        | inr h ↦
            rw (e, edge_visit, h)
              (moves_by (λ t. t.ports) qe_name query_id s.ports (push _ s.ports.mem) _
                (λ c e. Move.send_read _ c e refl refl))
      ]
      by_state read_inflight e = elim (receiver_cases s.ports.mem_ret) [
        | inl h ↦ rw (e, edge_visit, h) refl
        | inr (x, c, h, g, q) ↦ elim (Bool-cases (x.addr == r.mem_read_addr)) [
          | inl own ↦ rw (e, edge_visit, h, g, own, q) (Move.take_read x c q)
          | inr other ↦ rw (e, edge_visit, h, g, other) refl
        ]
      ]
      by_state read_finished e = rw (e, edge_visit) refl
      by_state _ e = rw (e, edge_visit) refl

  pub vec_visit-Moves :
      (r : QeMemState) (s : DistanceScan)
      → PassMoves
          (λ t. t.ports)
          qe_name
          query_id
          s.ports
          (vec_visit current_cycle qe_name node_id r s)
  unfolding vec_visit
  vec_visit-Moves r s = by_state r.state refl
    where
      by_state :
          (st : WhileRequestState)
          → r.state ≡ st
          → PassMoves
              (λ t. t.ports)
              qe_name
              query_id
              s.ports
              (vec_visit current_cycle qe_name node_id r s)
      by_state read_not_send e = elim (Bool-cases (full s.ports.mem)) [
        | inl h ↦ rw (e, vec_visit, h) refl
        | inr h ↦
            rw (e, vec_visit, h)
              (moves_by (λ t. t.ports) qe_name query_id s.ports (push _ s.ports.mem) _
                (λ c e. Move.send_read _ c e refl refl))
      ]
      by_state read_inflight e = elim (receiver_cases s.ports.mem_ret) [
        | inl h ↦ rw (e, vec_visit, h) refl
        | inr (x, c, h, g, q) ↦ elim (Bool-cases (x.addr == r.mem_read_addr)) [
          | inl own ↦ rw (e, vec_visit, h, g, own, q) (Move.take_read x c q)
          | inr other ↦ rw (e, vec_visit, h, g, other) refl
        ]
      ]
      by_state read_finished e = rw (e, vec_visit) refl
      by_state _ e = rw (e, vec_visit) refl

module _ (current_cycle qe_name query_id : ℕ) where
  abbrev Keeps : DistanceScan → Option (Pass QeDcTask DistanceScan) → Type 0
  Keeps s = PassMoves (λ t. t.ports) qe_name query_id s.ports

  reads-Moves :
      (t : QeDcTask) (s : DistanceScan) → Keeps s (task_reads current_cycle qe_name query_id t s)
  unfolding task_reads
  reads-Moves t s = elim (Option-cases loop) [
    | inl faults ↦ rw faults tt
    | inr (p, e) ↦ rw e (
        for_each-Moves (λ u. u.ports) qe_name query_id (vec_visit current_cycle qe_name t.node_id)
          (vec_visit-Moves current_cycle qe_name query_id t.node_id) t.mem_read_state
          (record s { vector_read_done = true }) p e)
  ]
    where
      loop : Option (Pass (List QeMemState) DistanceScan)
      loop =
          for_each (vec_visit current_cycle qe_name t.node_id) t.mem_read_state
            (record s { vector_read_done = true })

  mark-Moves :
      (t : QeDcTask) (s : DistanceScan) (st : WhileRequestState)
      → Keeps s (mark_read current_cycle qe_name query_id t s st)
  unfolding mark_read
  mark-Moves t s read_inflight = elim (Bool-cases s.vector_read_done) [
    | inl h ↦ rw h refl
    | inr h ↦ rw h refl
  ]
  mark-Moves t s _ = refl

  distance-Moves :
      (t : QeDcTask) (s : DistanceScan) (st : WhileRequestState)
      → Keeps s (distance_part current_cycle qe_name query_id t s st)
  unfolding distance_part
  distance-Moves t s read_finished = elim (Bool-cases (full s.ports.distance)) [
    | inl h ↦ rw h refl
    | inr h ↦ rw h (
        moves_by (λ u. u.ports) qe_name query_id s.ports (push _ s.ports.distance) _
          (λ c e. Move.send_distance _ c e refl refl))
  ]
  distance-Moves t s dc_inflight = elim (receiver_cases s.ports.return_distance) [
    | inl h ↦ rw h refl
    | inr (x, c, h, g, q) ↦ elim (Bool-cases (matches qe_name query_id t.node_id x)) [
      | inl own ↦
          let (e, e') = matches-own qe_name query_id t.node_id x own in
          rw (h, g, own, q) (Move.take_distance x c q e e')
      | inr other ↦ rw (h, g, other) refl
    ]
  ]
  distance-Moves t s dc_finished = refl
  distance-Moves t s _ = refl

  sort-Moves :
      (t : QeDcTask) (s : DistanceScan) (st : WhileRequestState)
      → Keeps s (sort_part current_cycle qe_name query_id t s st)
  unfolding sort_part
  sort-Moves t s dc_finished = elim (Bool-cases (t.remaining_compare_cycle == 0)) [
    | inl h ↦ rw h refl
    | inr h ↦ elim (Bool-cases (not s.compare_busy && s.prev_sort_finish)) [
      | inl turn ↦ rw (h, turn) refl
      | inr wait ↦ rw (h, wait) refl
    ]
  ]
  sort-Moves t s _ = refl

  pub task_visit-Moves :
      (t : QeDcTask) (s : DistanceScan) → Keeps s (task_visit current_cycle qe_name query_id t s)
  unfolding task_visit
  task_visit-Moves t s =
      follow _ _
        (follow _ _
          (follow _ _ (follow _ _ (reads-Moves t s) (λ t u. mark-Moves t u t.state))
            (λ t u. distance-Moves t u t.state))
          (λ t u. sort-Moves t u t.state))
        (λ t u. refl)
    where
      follow :
          (m : Option (Pass QeDcTask DistanceScan))
          → (k : QeDcTask → DistanceScan → Option (Pass QeDcTask DistanceScan)) → Keeps s m
          → ((x : QeDcTask) (u : DistanceScan) → Keeps u (k x u))
          → Keeps s (m >>> k)
      follow = moves_then (λ u. u.ports) qe_name query_id s.ports
