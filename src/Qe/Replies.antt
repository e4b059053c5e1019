-- ===== src/Qe/Replies.antt =====
-- One cycle of `query_init`, `query_pending_edge` or `query_pending_distance` of src/qe.cc: what
-- becomes of the requests, the reads or the tasks, and when the state ends.
use near_mem_nsg.Base.{
  ℕ, ◌≡◌, refl, subst, ◌∙◌, ◌⊎◌, inl, inr, Bool, ◌&&◌, some, List, arith, ◌==◌, Bool-cases,
  Option-cases, take, All,
}
use near_mem_nsg.Struct.{
  query_init, query_init_finish, query_get_data, sort_finished, QeDcTask, query_pending_edge,
  query_pending_distance, RequestState, finished, read_finished, QeMemState,
}
use near_mem_nsg.Qe.State.{Index, Config, Engine}
use near_mem_nsg.Qe.Loop.{Pass}
use near_mem_nsg.Qe.Init
use near_mem_nsg.Qe.Edge
use near_mem_nsg.Qe.Phases.{started}
use near_mem_nsg.Qe.Related.{Related, for_each-Related}
use near_mem_nsg.Qe.Awaits.{RequestAt, next_at, ReadStep}
use near_mem_nsg.Qe.Vector.{DistanceScan}
use near_mem_nsg.Qe.Distance
use near_mem_nsg.Qe.Distance.{distance_scan, task_visit}
use near_mem_nsg.Qe.Measures.{TaskStep}
use near_mem_nsg.Qe.Visits.{task_visit-Steps}
use near_mem_nsg.Qe.Steps.{StepIsComplete, step_complete}
use near_mem_nsg.Qe.Cycle.{do_cycle, by_state, working}

module _ {R F : Type 0} (cfg : Config R F) (index : Index R F) (current_cycle : ℕ) where
  -- Each of the first `L` requests stays, is sent, or gets back its distance.
  abbrev RequestsStep : Engine R F → List RequestState → List RequestState → Type 0
  RequestsStep e =
      Related (RequestAt e.qe.qe_name e.qe.query_id (index.node_id e.qe.retset))
        (next_at e.qe.qe_name e.qe.query_id (index.node_id e.qe.retset)) (0, e.ports)

  -- The requests step, and the state ends where all of them have their distances.
  abbrev pub AwaitsDistances : Engine R F → Engine R F → Type 0
  AwaitsDistances e e' =
      RequestsStep e (take cfg.l e.qe.init_dc_state) (take cfg.l e'.qe.init_dc_state)
      × ((e'.qe.query_state ≡ query_init)
          ⊎ ((e'.qe.query_state ≡ query_init_finish)
              × All (λ st. st ≡ finished) (take cfg.l e'.qe.init_dc_state)))

  -- Each read of the edge list stays, is sent, or gets back its answer.
  abbrev ReadsStep : Engine R F → List QeMemState → List QeMemState → Type 0
  ReadsStep e = Related (ReadStep e.qe.qe_name e.qe.edge_read_task.node_id) (λ p. p) e.ports

  -- The reads step, and the state ends where all of them have their answers.
  abbrev pub AwaitsEdges : Engine R F → Engine R F → Type 0
  AwaitsEdges e e' =
      ReadsStep e e.qe.edge_read_task.mem_read_state e'.qe.edge_read_task.mem_read_state
      × ((e'.qe.query_state ≡ query_pending_edge)
          ⊎ ((e'.qe.query_state ≡ query_pending_distance)
              × All (λ r. r.state ≡ read_finished) e'.qe.edge_read_task.mem_read_state))

  -- What the loop over the tasks makes of them is kept, or the step ends with all of them inserted.
  abbrev pub AwaitsTasks : Engine R F → Engine R F → Type 0
  AwaitsTasks e e' =
      (p : Pass (List QeDcTask) DistanceScan) × (distance_scan current_cycle (started e) ≡ some p)
      × Related (TaskStep e.qe.qe_name e.qe.query_id) (λ p. p) e.ports e.qe.dc_task_list p.value
      × (((e'.qe.query_state ≡ query_pending_distance) × (e'.qe.dc_task_list ≡ p.value))
          ⊎ ((e'.qe.query_state ≡ query_get_data) × All (λ t. t.state ≡ sort_finished) p.value))

  distance_scan-Steps :
      (e : Engine R F) (p : Pass (List QeDcTask) DistanceScan)
      → distance_scan current_cycle e ≡ some p
      → Related (TaskStep e.qe.qe_name e.qe.query_id) (λ p. p) e.ports e.qe.dc_task_list p.value
  unfolding distance_scan
  distance_scan-Steps e p h =
      for_each-Related (TaskStep e.qe.qe_name e.qe.query_id) (λ p. p)
        (λ k x. TaskStep.stays x x refl) (task_visit current_cycle e.qe.qe_name e.qe.query_id)
        (λ s. s.ports) (task_visit-Steps current_cycle e.qe.qe_name e.qe.query_id) e.qe.dc_task_list
        _ p h

  distance_done-cases :
      (e : Engine R F) (p : Pass (List QeDcTask) DistanceScan)
      → ((Distance.distance_done current_cycle e p).1.qe.query_state ≡ query_get_data)
        ⊎ (((Distance.distance_done current_cycle e p).1.qe.query_state ≡ e.qe.query_state)
            × ((Distance.distance_done current_cycle e p).1.qe.dc_task_list ≡ p.value))
  unfolding Distance.distance_done Distance.step_done
  distance_done-cases e p = elim (Bool-cases p.returned) [
    | inl back ↦ inr (ground arith, ground arith)
    | inr on ↦ elim (Bool-cases (p.state.all_sort_ready && p.state.all_distance_ready)) [
      | inl ready ↦ elim (Bool-cases (e.qe.remaining_cycle == 0)) [
        | inl now ↦ inl (ground arith)
        | inr more ↦ inr (ground arith, ground arith)
      ]
      | inr wait ↦ inr (ground arith, ground arith)
    ]
  ]

  -- In a cycle in `query_pending_distance` the loop gives a task the mark of a known distance only
  -- if it waits for it and the channel holds the distance for this engine, query and node, and
  -- marks a task as inserted only if it has its distance and no comparison cycles left; else the
  -- mark of a task stays, or says that its vector is read or its distance asked for. The engine
  -- stays with these tasks, or goes on to the next step of the search with all of them marked as
  -- inserted.
  pub do_cycle-AwaitsTasks :
      (e : Engine R F) (b : Bool) (e' : Engine R F)
      → do_cycle cfg index current_cycle e ≡ some (b, e')
      → e.qe.query_state ≡ query_pending_distance
      → AwaitsTasks e e'
  unfolding do_cycle working by_state Distance.query_pending_distance
  do_cycle-AwaitsTasks e b e' h w = elim (Option-cases (distance_scan current_cycle (started e))) [
    | inl faults ↦ absurd (ground arith)
    | inr (p, scan) ↦
        let same : (Distance.distance_done current_cycle (started e) p).1 ≡ e' = ground arith in
        (
          p,
          scan,
          distance_scan-Steps (started e) p scan,
          elim (distance_done-cases (started e) p) [
            | inl left ↦
                let left' = subst (λ t. t.qe.query_state ≡ query_get_data) same left in
                inr
                  (left', inserted p scan (step_complete cfg index current_cycle e b e' h w left'))
            | inr (on, tasks) ↦ inl (
              subst (λ t. t.qe.query_state ≡ e.qe.query_state) same on ∙ w,
              subst (λ t. t.qe.dc_task_list ≡ p.value) same tasks,
            )
          ],
        )
  ]
    where
      inserted :
          (p : Pass (List QeDcTask) DistanceScan)
          → distance_scan current_cycle (started e) ≡ some p
          → StepIsComplete cfg index current_cycle e e'
          → All (λ t. t.state ≡ sort_finished) p.value
      inserted p scan (q, again, on, waited, could, all, dropped) =
          let same : q ≡ p = ground arith in
          subst (λ y. All (λ (t : QeDcTask). t.state ≡ sort_finished) y.value) same all
