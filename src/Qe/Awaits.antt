-- ===== src/Qe/Awaits.antt =====
-- What the cycles in `query_init` and in `query_pending_edge` of src/qe.cc make of the requests and
-- the reads of an engine.
use near_mem_nsg.Base.{
  ℕ, ◌+◌, ◌≡◌, refl, subst, ◌⊎◌, inl, inr, true, Option, some, arith, ◌==◌, Bool-cases,
  Option-cases,
}
use near_mem_nsg.Struct.{
  RequestState, not_send, inflight, finished, WhileRequestState, read_not_send, read_inflight,
  read_finished, dc_inflight, dc_finished, sort_finished, DistanceTask, MemReadTask, QeMemState,
}
use near_mem_nsg.TaskQueue.{Channel, full, push, pop}
use near_mem_nsg.TaskQueue.Bounds.{receiver_cases}
use near_mem_nsg.Qe.State.{Ports}
use near_mem_nsg.Qe.Loop.{Pass}
use near_mem_nsg.Qe.Init.{InitScan, init_request, matches}
use near_mem_nsg.Qe.Edge.{EdgeScan, edge_visit}

-- The request of one initial entry in a cycle: it stays, is sent, or gets back its distance, which is
-- then taken from the channel.
pub data RequestStep (qe_name query_id : ℕ) (node_id : ℕ → Option ℕ) (i : ℕ) (p : Ports)
    : RequestState → RequestState → Type 0 where
  stays : (x : RequestState) → RequestStep qe_name query_id node_id i p x x
  sends :
      (id : ℕ) (c : Channel DistanceTask)
      → node_id i ≡ some id
      → push (record { qe_name = qe_name; query_id = query_id; node_id = id }) p.distance ≡ some c
      → RequestStep qe_name query_id node_id i p not_send inflight
  gets :
      (id : ℕ) (c : Channel DistanceTask)
      → node_id i ≡ some id
      → pop p.return_distance
        ≡ some (record { qe_name = qe_name; query_id = query_id; node_id = id }, c)
      → RequestStep qe_name query_id node_id i p inflight finished

-- A read of an edge list in a cycle: it stays, is sent, or gets back its answer, which is then taken
-- from the channel.
pub data ReadStep (qe_name node_id : ℕ) (p : Ports) : QeMemState → QeMemState → Type 0 where
  stays : (x : QeMemState) → ReadStep qe_name node_id p x x
  sends :
      (x : QeMemState) (c : Channel MemReadTask)
      → x.state ≡ read_not_send
      → push
          (record {
            addr = x.mem_read_addr;
            is_read = true;
            qe_name = qe_name;
            node_id = node_id;
            is_edge_table = true;
          })
          p.mem
        ≡ some c
      → ReadStep qe_name node_id p x (record x { state = read_inflight })
  gets :
      (x : QeMemState) (t : MemReadTask) (c : Channel MemReadTask)
      → x.state ≡ read_inflight
      → pop p.mem_ret ≡ some (t, c)
      → t.addr ≡ x.mem_read_addr
      → ReadStep qe_name node_id p x (record x { state = read_finished })

-- A task that an engine waits for is this one.
pub whole :
    (qe_name query_id id : ℕ) (t : DistanceTask)
    → matches qe_name query_id id t ≡ true
    → t ≡ record { qe_name = qe_name; query_id = query_id; node_id = id }
whole qe_name query_id id t h = ground arith

module _ (qe_name query_id : ℕ) (node_id : ℕ → Option ℕ) where
  abbrev pub RequestAt : ℕ × Ports → RequestState → RequestState → Type 0
  RequestAt k = RequestStep qe_name query_id node_id k.0 k.1

  abbrev pub next_at : ℕ × Ports → ℕ × Ports
  next_at k = (k.0 + 1, k.1)

  pub init_request-Steps :
      (x : RequestState) (s : InitScan) (r : Pass RequestState InitScan)
      → init_request qe_name query_id node_id x s ≡ some r
      → RequestAt (s.i, s.ports) x r.value
        × ((r.returned ≡ true) ⊎ ((r.state.i, r.state.ports) ≡ next_at (s.i, s.ports)))
  unfolding init_request
  init_request-Steps finished s r h = (
    subst (RequestAt (s.i, s.ports) finished) (ground arith) (RequestStep.stays finished),
    inr (ground arith),
  )
  init_request-Steps not_send s r h = elim (Bool-cases (full s.ports.distance)) [
    | inl f ↦ (
      subst (RequestAt (s.i, s.ports) not_send) (ground arith) (RequestStep.stays not_send),
      inr (ground arith),
    )
    | inr f ↦ elim (Option-cases (node_id s.i)) [
      | inl absent ↦ absurd (ground arith)
      | inr (id, at) ↦
          elim (Option-cases (
            push (record { qe_name = qe_name; query_id = query_id; node_id = id })
              s.ports.distance)) [
                | inl faults ↦ absurd (ground arith)
                | inr (c, g) ↦ (
                  subst (RequestAt (s.i, s.ports) not_send) (ground arith)
                      (RequestStep.sends id c at g),
                  inl (ground arith),
                )
              ]
    ]
  ]
  init_request-Steps inflight s r h = elim (receiver_cases s.ports.return_distance) [
    | inl f ↦ (
      subst (RequestAt (s.i, s.ports) inflight) (ground arith) (RequestStep.stays inflight),
      inr (ground arith),
    )
    | inr (y, c, f, g, q) ↦ elim (Option-cases (node_id s.i)) [
      | inl absent ↦ absurd (ground arith)
      | inr (id, at) ↦ elim (Bool-cases (matches qe_name query_id id y)) [
        | inl own ↦ (
          subst (RequestAt (s.i, s.ports) inflight) (ground arith)
              (RequestStep.gets id c at (rw (whole qe_name query_id id y own) at q)),
          inl (ground arith),
        )
        | inr other ↦ (
          subst (RequestAt (s.i, s.ports) inflight) (ground arith) (RequestStep.stays inflight),
          inr (ground arith),
        )
      ]
    ]
  ]

module _ (current_cycle qe_name node_id : ℕ) where
  pub edge_visit-Steps :
      (x : QeMemState) (s : EdgeScan) (r : Pass QeMemState EdgeScan)
      → edge_visit current_cycle qe_name node_id x s ≡ some r
      → ReadStep qe_name node_id s.ports x r.value
        × ((r.returned ≡ true) ⊎ (r.state.ports ≡ s.ports))
  unfolding edge_visit
  edge_visit-Steps x s r h = by_read x.state refl
    where
      To : QeMemState → Type 0
      To = ReadStep qe_name node_id s.ports x

      still : x ≡ r.value → To r.value
      still same = subst To same (ReadStep.stays x)

      by_read :
          (st : WhileRequestState)
          → x.state ≡ st
          → To r.value × ((r.returned ≡ true) ⊎ (r.state.ports ≡ s.ports))
      by_read read_finished e = (still (ground arith), inr (ground arith))
      by_read read_not_send e = elim (Bool-cases (full s.ports.mem)) [
        | inl f ↦ (still (ground arith), inr (ground arith))
        | inr f ↦
            elim (Option-cases (
              push
                (record {
                  addr = x.mem_read_addr;
                  is_read = true;
                  qe_name = qe_name;
                  node_id = node_id;
                  is_edge_table = true;
                })
                s.ports.mem)) [
                  | inl faults ↦ absurd (ground arith)
                  | inr (c, g) ↦
                      (subst To (ground arith) (ReadStep.sends x c e g), inl (ground arith))
                ]
      ]
      by_read read_inflight e = elim (receiver_cases s.ports.mem_ret) [
        | inl f ↦ (still (ground arith), inr (ground arith))
        | inr (y, c, f, g, q) ↦ elim (Bool-cases (y.addr == x.mem_read_addr)) [
          | inl own ↦
              (subst To (ground arith) (ReadStep.gets x y c e q (ground arith)), inl (ground arith))
          | inr other ↦ (still (ground arith), inr (ground arith))
        ]
      ]
      by_read dc_inflight e = (still (ground arith), inr (ground arith))
      by_read dc_finished e = (still (ground arith), inr (ground arith))
      by_read sort_finished e = (still (ground arith), inr (ground arith))
