-- ===== src/Qe/Visits.antt =====
-- The visit of a task in `query_pending_distance` of src/qe.cc, part by part.
use near_mem_nsg.Base.{
  ℕ, ◌≡◌, refl, sym, subst, ◌∙◌, ◌⊎◌, inl, inr, true, false, not, ◌&&◌, Option, none, some, arith,
  ◌==◌, ==_iff, Bool-cases, Option-cases,
}
use near_mem_nsg.Struct.{
  WhileRequestState, read_not_send, read_inflight, read_finished, dc_inflight, dc_finished,
  sort_finished, DistanceTask, QeDcTask,
}
use near_mem_nsg.TaskQueue.{Channel, full, push, pop}
use near_mem_nsg.TaskQueue.Bounds.{receiver_cases}
use near_mem_nsg.Qe.Loop.{Pass, ◌>>>◌}
use near_mem_nsg.Qe.Init.{matches}
use near_mem_nsg.Qe.Vector.{DistanceScan}
use near_mem_nsg.Qe.Distance.{task_visit, distance_part, sort_part}
use near_mem_nsg.Qe.Measures.{TaskStep, Early, Part, kept-Part, reads-Part, mark-Part}
use near_mem_nsg.Qe.Awaits.{whole}

module _ (current_cycle qe_name query_id : ℕ) where
  distance-Part :
      (t : QeDcTask) (s : DistanceScan) (x : QeDcTask) (u : DistanceScan)
      → (r : Pass QeDcTask DistanceScan) → Early current_cycle qe_name query_id t s x u
      → distance_part current_cycle qe_name query_id x u x.state ≡ some r
      → Part current_cycle qe_name query_id t s (Early current_cycle qe_name query_id t s) r
  unfolding distance_part
  distance-Part t s x u r early h = by_state x.state refl
    where
      same :
          x ≡ r.value
          → r.returned ≡ false
          → r.state.ports ≡ u.ports
          → Part current_cycle qe_name query_id t s (Early current_cycle qe_name query_id t s) r
      same = kept-Part current_cycle qe_name query_id t s x u r early

      task : ℕ → DistanceTask
      task id = record { qe_name = qe_name; query_id = query_id; node_id = id }

      reply :
          (c : Channel DistanceTask)
          → pop u.ports.return_distance ≡ some (task x.node_id, c)
          → pop s.ports.return_distance ≡ some (task t.node_id, c)
      reply c q =
          subst (λ p. pop p.return_distance ≡ some (task t.node_id, c)) early.ports
            (subst (λ n. pop u.ports.return_distance ≡ some (task n, c)) early.node_id q)

      was_sent :
          x.state ≡ dc_inflight
          → (x.state ≡ t.state) ⊎ (x.state ≡ read_finished)
          → t.state ≡ dc_inflight
      was_sent e (inl k) = sym k ∙ e
      was_sent e (inr k) = absurd (ground arith)

      by_state :
          (st : WhileRequestState)
          → x.state ≡ st
          → Part current_cycle qe_name query_id t s (Early current_cycle qe_name query_id t s) r
      by_state read_finished e = elim (Bool-cases (full u.ports.distance)) [
        | inl f ↦ same (ground arith) (ground arith) (ground arith)
        | inr f ↦
            elim (Option-cases (
              push (record { qe_name = qe_name; query_id = query_id; node_id = x.node_id })
                u.ports.distance)) [
                  | inl faults ↦ absurd (ground arith)
                  | inr (c, g) ↦ inl (ground arith, TaskStep.sends t r.value (ground arith))
                ]
      ]
      by_state dc_inflight e = elim (receiver_cases u.ports.return_distance) [
        | inl f ↦ same (ground arith) (ground arith) (ground arith)
        | inr (y, c, f, g, q) ↦ elim (Bool-cases (matches qe_name query_id x.node_id y)) [
          | inl own ↦ inl (
            ground arith,
            TaskStep.gets t r.value c (was_sent e early.state) (ground arith) (
                reply c (
                  subst (λ y. pop u.ports.return_distance ≡ some (y, c))
                    (whole qe_name query_id x.node_id y own) q)),
          )
          | inr other ↦ same (ground arith) (ground arith) (ground arith)
        ]
      ]
      by_state read_not_send e = same (ground arith) (ground arith) (ground arith)
      by_state read_inflight e = same (ground arith) (ground arith) (ground arith)
      by_state dc_finished e = same (ground arith) (ground arith) (ground arith)
      by_state sort_finished e = same (ground arith) (ground arith) (ground arith)

  -- A step of the task, from a part that goes on.
  abbrev Stepped : QeDcTask → DistanceScan → QeDcTask → DistanceScan → Type 0
  Stepped t s x u = TaskStep qe_name query_id s.ports t x × (u.ports ≡ s.ports)

  sort-Part :
      (t : QeDcTask) (s : DistanceScan) (x : QeDcTask) (u : DistanceScan)
      → (r : Pass QeDcTask DistanceScan) → Early current_cycle qe_name query_id t s x u
      → sort_part current_cycle qe_name query_id x u x.state ≡ some r
      → Part current_cycle qe_name query_id t s (Stepped t s) r
  unfolding sort_part
  sort-Part t s x u r early h = by_state x.state refl
    where
      early_step :
          (x.state ≡ t.state) ⊎ (x.state ≡ read_finished)
          → r.value.state ≡ x.state
          → TaskStep qe_name query_id s.ports t r.value
      early_step (inl k) e = TaskStep.stays t r.value (e ∙ k)
      early_step (inr k) e = TaskStep.reads t r.value (e ∙ k)

      same :
          r.value.state ≡ x.state
          → r.returned ≡ false
          → r.state.ports ≡ u.ports
          → Part current_cycle qe_name query_id t s (Stepped t s) r
      same e on p = inr (on, (early_step early.state e, p ∙ early.ports))

      measured :
          x.state ≡ dc_finished
          → (x.state ≡ t.state) ⊎ (x.state ≡ read_finished)
          → t.state ≡ dc_finished
      measured e (inl k) = sym k ∙ e
      measured e (inr k) = absurd (ground arith)

      by_state :
          (st : WhileRequestState)
          → x.state ≡ st
          → Part current_cycle qe_name query_id t s (Stepped t s) r
      by_state dc_finished e = elim (Bool-cases (x.remaining_compare_cycle == 0)) [
        | inl now ↦ inr (
          ground arith,
          (
            TaskStep.ends t r.value (measured e early.state)
                (sym early.compares ∙ (==_iff x.remaining_compare_cycle 0).0 now) (ground arith),
            ground (arith, early.ports),
          ),
        )
        | inr wait ↦ elim (Bool-cases (not u.compare_busy && u.prev_sort_finish)) [
          | inl turn ↦ same (ground arith) (ground arith) (ground arith)
          | inr later ↦ same (ground arith) (ground arith) (ground arith)
        ]
      ]
      by_state read_not_send e = same (ground arith) (ground arith) (ground arith)
      by_state read_inflight e = same (ground arith) (ground arith) (ground arith)
      by_state read_finished e = same (ground arith) (ground arith) (ground arith)
      by_state dc_inflight e = same (ground arith) (ground arith) (ground arith)
      by_state sort_finished e = same (ground arith) (ground arith) (ground arith)

  then-Part :
      (t : QeDcTask) (s : DistanceScan) (Q Q' : QeDcTask → DistanceScan → Type 0)
      → (m : Option (Pass QeDcTask DistanceScan))
      → (k : QeDcTask → DistanceScan → Option (Pass QeDcTask DistanceScan))
      → ((q : Pass QeDcTask DistanceScan)
          → m ≡ some q
          → Part current_cycle qe_name query_id t s Q q)
      → ((x : QeDcTask) (u : DistanceScan) (r : Pass QeDcTask DistanceScan)
          → Q x u
          → k x u ≡ some r
          → Part current_cycle qe_name query_id t s Q' r)
      → (r : Pass QeDcTask DistanceScan) → (m >>> k) ≡ some r
      → Part current_cycle qe_name query_id t s Q' r
  then-Part t s Q Q' none k first next r h = absurd (ground arith)
  then-Part t s Q Q' (some q) k first next r h = elim (first q refl) [
    | inl (back, step) ↦
        let same : q ≡ r = ground arith in
        inl (
          subst (λ y. y.returned ≡ true) same back,
          subst (λ y. TaskStep qe_name query_id s.ports t y.value) same step,
        )
    | inr (on, kept) ↦ next q.value q.state r kept (ground arith)
  ]

  pub task_visit-Steps :
      (t : QeDcTask) (s : DistanceScan) (r : Pass QeDcTask DistanceScan)
      → task_visit current_cycle qe_name query_id t s ≡ some r
      → TaskStep qe_name query_id s.ports t r.value
        × ((r.returned ≡ true) ⊎ (r.state.ports ≡ s.ports))
  unfolding task_visit
  task_visit-Steps t s r h =
      elim (then-Part t s (Stepped t s) (Stepped t s) _ _
        (then-Part t s (Early current_cycle qe_name query_id t s) (Stepped t s) _ _
          (then-Part t s (Early current_cycle qe_name query_id t s)
            (Early current_cycle qe_name query_id t s) _ _
            (then-Part t s (Early current_cycle qe_name query_id t s)
              (Early current_cycle qe_name query_id t s) _ _
              (reads-Part current_cycle qe_name query_id t s)
              (mark-Part current_cycle qe_name query_id t s))
            (distance-Part t s))
          (sort-Part t s))
        (λ x u q (step, p) g. inr (
          ground arith,
          (
            subst (λ y. TaskStep qe_name query_id s.ports t y) (ground arith) step,
            ground (arith, p),
          ),
        ))
        r h) [ inl (back, step) ↦ (step, inl back) | inr (on, (step, p)) ↦ (step, inr p) ]
