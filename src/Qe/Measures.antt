-- ===== src/Qe/Measures.antt =====
-- What a cycle in `query_pending_distance` of src/qe.cc makes of the tasks of a step.
use near_mem_nsg.Base.{
  ℕ, ◌≡◌, refl, subst, ◌∙◌, ◌⊎◌, inl, inr, true, false, some, arith, ◌==◌, Bool-cases, Option-cases,
}
use near_mem_nsg.Struct.{
  WhileRequestState, read_not_send, read_inflight, read_finished, dc_inflight, dc_finished,
  sort_finished, DistanceTask, QeMemState, QeDcTask,
}
use near_mem_nsg.TaskQueue.{Channel, full, push, pop}
use near_mem_nsg.TaskQueue.Bounds.{receiver_cases}
use near_mem_nsg.Qe.State.{Ports}
use near_mem_nsg.Qe.Loop.{Pass, for_each}
use near_mem_nsg.Qe.Rule.{for_each-rule}
use near_mem_nsg.Qe.Vector.{DistanceScan, vec_visit}
use near_mem_nsg.Qe.Distance.{task_reads, mark_read}

-- A task in a cycle: its state stays, or it is not measured after it; or it gets back its distance,
-- which is then taken from the channel; or it is inserted, with no comparisons left.
pub data TaskStep (qe_name query_id : ℕ) (p : Ports) : QeDcTask → QeDcTask → Type 0 where
  stays : (t u : QeDcTask) → u.state ≡ t.state → TaskStep qe_name query_id p t u
  reads : (t u : QeDcTask) → u.state ≡ read_finished → TaskStep qe_name query_id p t u
  sends : (t u : QeDcTask) → u.state ≡ dc_inflight → TaskStep qe_name query_id p t u
  gets :
      (t u : QeDcTask) (c : Channel DistanceTask)
      → t.state ≡ dc_inflight
      → u.state ≡ dc_finished
      → pop p.return_distance
        ≡ some (record { qe_name = qe_name; query_id = query_id; node_id = t.node_id }, c)
      → TaskStep qe_name query_id p t u
  ends :
      (t u : QeDcTask)
      → t.state ≡ dc_finished
      → t.remaining_compare_cycle ≡ 0
      → u.state ≡ sort_finished
      → TaskStep qe_name query_id p t u

module _ (current_cycle qe_name query_id : ℕ) where
  -- The reads that go on leave the channels.
  vec_visit-ports :
      (node_id : ℕ) (x : QeMemState) (s : DistanceScan) (r : Pass QeMemState DistanceScan)
      → vec_visit current_cycle qe_name node_id x s ≡ some r
      → (r.returned ≡ true) ⊎ (r.state.ports ≡ s.ports)
  unfolding vec_visit
  vec_visit-ports node_id x s r h = by_read x.state refl
    where
      by_read :
          (st : WhileRequestState) → x.state ≡ st → (r.returned ≡ true) ⊎ (r.state.ports ≡ s.ports)
      by_read read_finished e = inr (ground arith)
      by_read read_not_send e = elim (Bool-cases (full s.ports.mem)) [
        | inl f ↦ inr (ground arith)
        | inr f ↦
            elim (Option-cases (
              push
                (record {
                  addr = x.mem_read_addr;
                  is_read = true;
                  qe_name = qe_name;
                  node_id = node_id;
                  is_edge_table = false;
                })
                s.ports.mem)) [
                  | inl faults ↦ absurd (ground arith)
                  | inr (c, g) ↦ inl (ground arith)
                ]
      ]
      by_read read_inflight e = elim (receiver_cases s.ports.mem_ret) [
        | inl f ↦ inr (ground arith)
        | inr (y, c, f, g, q) ↦ elim (Bool-cases (y.addr == x.mem_read_addr)) [
          | inl own ↦ inl (ground arith)
          | inr other ↦ inr (ground arith)
        ]
      ]
      by_read dc_inflight e = inr (ground arith)
      by_read dc_finished e = inr (ground arith)
      by_read sort_finished e = inr (ground arith)

  -- What the task was, as long as nothing has come back for it.
  pub record Early (t : QeDcTask) (s : DistanceScan) (x : QeDcTask) (u : DistanceScan)
      : Type 0 where
    pub ports : u.ports ≡ s.ports
    pub node_id : x.node_id ≡ t.node_id
    pub compares : x.remaining_compare_cycle ≡ t.remaining_compare_cycle
    pub state : (x.state ≡ t.state) ⊎ (x.state ≡ read_finished)

  -- A part returned with a step of the task, or has gone on.
  abbrev pub Part :
      QeDcTask
      → DistanceScan
      → (QeDcTask → DistanceScan → Type 0)
      → Pass QeDcTask DistanceScan
      → Type 0
  Part t s Q r =
      ((r.returned ≡ true) × TaskStep qe_name query_id s.ports t r.value)
      ⊎ ((r.returned ≡ false) × Q r.value r.state)

  pub reads-Part :
      (t : QeDcTask) (s : DistanceScan) (r : Pass QeDcTask DistanceScan)
      → task_reads current_cycle qe_name query_id t s ≡ some r
      → Part t s (Early t s) r
  unfolding task_reads
  reads-Part t s r h =
      elim (Option-cases (
        for_each (vec_visit current_cycle qe_name t.node_id) t.mem_read_state
          (record s { vector_read_done = true }))) [
            | inl faults ↦ absurd (ground arith)
            | inr (p, e) ↦
                let kept =
                  for_each-rule (vec_visit current_cycle qe_name t.node_id)
                    (λ b u. (b ≡ true) ⊎ (u.ports ≡ s.ports))
                    (λ x u q k g. ports_kept x u q k (vec_visit-ports t.node_id x u q g))
                    t.mem_read_state (record s { vector_read_done = true }) p (inr refl) e in
                elim (Bool-cases p.returned) [
                  | inl back ↦ inl (ground arith, TaskStep.stays t r.value (ground arith))
                  | inr on ↦ elim kept [
                    | inl back ↦ absurd (ground arith)
                    | inr same ↦ inr (
                      ground arith,
                      record {
                        ports = ground (arith, same);
                        node_id = ground arith;
                        compares = ground arith;
                        state = inl (ground arith);
                      },
                    )
                  ]
                ]
          ]
    where
      ports_kept :
          (x : QeMemState) (u : DistanceScan) (q : Pass QeMemState DistanceScan)
          → (false ≡ true) ⊎ (u.ports ≡ s.ports)
          → (q.returned ≡ true) ⊎ (q.state.ports ≡ u.ports)
          → (q.returned ≡ true) ⊎ (q.state.ports ≡ s.ports)
      ports_kept x u q k (inl back) = inl back
      ports_kept x u q (inl bad) (inr same) = absurd (ground arith)
      ports_kept x u q (inr k) (inr same) = inr (same ∙ k)

  pub kept-Part :
      (t : QeDcTask) (s : DistanceScan) (x : QeDcTask) (u : DistanceScan)
      → (r : Pass QeDcTask DistanceScan) → Early t s x u
      → x ≡ r.value
      → r.returned ≡ false
      → r.state.ports ≡ u.ports
      → Part t s (Early t s) r
  kept-Part t s x u r early e on p = inr (
    on,
    record {
      ports = p ∙ early.ports;
      node_id = subst (λ y. y.node_id ≡ t.node_id) e early.node_id;
      compares =
          subst (λ y. y.remaining_compare_cycle ≡ t.remaining_compare_cycle) e early.compares;
      state = subst (λ y. (y.state ≡ t.state) ⊎ (y.state ≡ read_finished)) e early.state;
    },
  )

  pub mark-Part :
      (t : QeDcTask) (s : DistanceScan) (x : QeDcTask) (u : DistanceScan)
      → (r : Pass QeDcTask DistanceScan) → Early t s x u
      → mark_read current_cycle qe_name query_id x u x.state ≡ some r
      → Part t s (Early t s) r
  unfolding mark_read
  mark-Part t s x u r early h = by_state x.state refl
    where
      same : x ≡ r.value → r.returned ≡ false → r.state.ports ≡ u.ports → Part t s (Early t s) r
      same = kept-Part t s x u r early

      by_state : (st : WhileRequestState) → x.state ≡ st → Part t s (Early t s) r
      by_state read_inflight e = elim (Bool-cases u.vector_read_done) [
        | inl done ↦ inr (
          ground arith,
          record {
            ports = ground (arith, early.ports);
            node_id = ground (arith, early.node_id);
            compares = ground (arith, early.compares);
            state = inr (ground arith);
          },
        )
        | inr wait ↦ same (ground arith) (ground arith) (ground arith)
      ]
      by_state read_not_send e = same (ground arith) (ground arith) (ground arith)
      by_state read_finished e = same (ground arith) (ground arith) (ground arith)
      by_state dc_inflight e = same (ground arith) (ground arith) (ground arith)
      by_state dc_finished e = same (ground arith) (ground arith) (ground arith)
      by_state sort_finished e = same (ground arith) (ground arith) (ground arith)
