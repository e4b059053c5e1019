-- ===== src/Qe/Steps.antt =====
-- The end of a step of the search, in `query_pending_distance` of src/qe.cc.
use near_mem_nsg.Base.{
  ℕ, ◌≡◌, sym, subst, ◌∙◌, ◌⊎◌, inl, inr, Bool, false, ◌&&◌, some, List, [], arith, ◌==◌, ==_iff,
  Bool-cases, Option-cases, All,
}
use near_mem_nsg.Struct.{SearchState, dc_finished, sort_finished, QeDcTask}
use near_mem_nsg.Qe.State.{Index, Config, Engine}
use near_mem_nsg.Qe.Loop.{Pass}
use near_mem_nsg.Qe.Rule.{for_each-ready, for_each-ready_before}
use near_mem_nsg.Qe.Phases.{started}
use near_mem_nsg.Qe.Vector.{DistanceScan}
use near_mem_nsg.Qe.Distance.{
  task_visit, task_reads, mark_read, distance_part, sort_part, distance_scan,
}
use near_mem_nsg.Qe.Distance
use near_mem_nsg.Qe.Cycle.{do_cycle, by_state, working}
use near_mem_nsg.Qe.Sorting.{
  settled, Settles, settles_then, reads-settled, mark-settled, distance-settled, sort-settled,
  sort-settled_before, CanEnd, Same, SameOrRead, reads-Same, mark-SameOrRead,
}

module _ (current_cycle qe_name query_id : ℕ) where
  -- A task that a pass with the flags set leaves is marked as inserted, and could end before it.
  task_visit-done :
      (t : QeDcTask) (s : DistanceScan)
      → Settles current_cycle qe_name query_id s
          (task_visit current_cycle qe_name query_id t s)
          (λ x. (x.state ≡ sort_finished) × CanEnd t)
  unfolding task_visit
  task_visit-done t s =
      settles_then current_cycle qe_name query_id s Ended Ended _ _
        (settles_then current_cycle qe_name query_id s (λ x. HasDistance x × Same t x) Ended _ _
          (settles_then current_cycle qe_name query_id s (SameOrRead t)
            (λ x. HasDistance x × Same t x) _ _
            (settles_then current_cycle qe_name query_id s (Same t) (SameOrRead t) _ _
              (λ r h on ready. (
                sym (reads-settled current_cycle qe_name query_id t s r h) ∙ ready,
                reads-Same current_cycle qe_name query_id t s r h,
              ))
              (λ x u r h on ready. (
                sym (mark-settled current_cycle qe_name query_id x u r x.state h) ∙ ready,
                λ p.
                    marked x r.value p
                      (mark-SameOrRead current_cycle qe_name query_id x u r x.state h),
              )))
            (λ x u r h on ready.
              let (start, p, same) =
                distance-settled current_cycle qe_name query_id x u r h on ready in
              (start, λ before. (p, measured x r.value before p same))))
          (λ x u r h on ready. (
            sort-settled_before current_cycle qe_name query_id x u r x.state h ready,
            λ (p, same).
                let (done, can) = sort-settled current_cycle qe_name query_id x u r p h ready in
                (done, ended x same can),
          )))
        (λ x u r h on ready. (ground arith, λ p. (ground (arith, p.0), p.1)))
    where
      HasDistance : QeDcTask → Type 0
      HasDistance x = (x.state ≡ dc_finished) ⊎ (x.state ≡ sort_finished)

      Ended : QeDcTask → Type 0
      Ended x = (x.state ≡ sort_finished) × CanEnd t

      marked : (x y : QeDcTask) → Same t x → SameOrRead x y → SameOrRead t y
      marked x y (a, b) (inl c, d) = (inl (c ∙ a), d ∙ b)
      marked x y (a, b) (inr c, d) = (inr c, d ∙ b)

      measured : (x y : QeDcTask) → SameOrRead t x → HasDistance y → Same x y → Same t y
      measured x y (inl a, b) p (c, d) = (c ∙ a, d ∙ b)
      measured x y (inr a, b) (inl p) (c, d) = absurd (ground arith)
      measured x y (inr a, b) (inr p) (c, d) = absurd (ground arith)

      ended : (x : QeDcTask) → Same t x → CanEnd x → CanEnd t
      ended x (a, b) (inl p) = inl (sym a ∙ p)
      ended x (a, b) (inr (p, q)) = inr (sym a ∙ p, sym b ∙ q)

module _ {R F : Type 0} (cfg : Config R F) (index : Index R F) (current_cycle : ℕ) where
  -- What has happened when a step ends: each task could end when the cycle began, the loop has gone
  -- through the tasks without a return, all of them are done, and nothing is left to wait for.
  abbrev pub StepIsComplete : Engine R F → Engine R F → Type 0
  StepIsComplete e e' =
      (p : Pass (List QeDcTask) DistanceScan) × (distance_scan current_cycle (started e) ≡ some p)
      × (p.returned ≡ false)
      × (e.qe.remaining_cycle ≡ 0)
      × All CanEnd e.qe.dc_task_list
      × All (λ t. t.state ≡ sort_finished) p.value
      × (e'.qe.dc_task_list ≡ [])

  distance_done_complete :
      (e : Engine R F) (p : Pass (List QeDcTask) DistanceScan)
      → distance_scan current_cycle e ≡ some p
      → e.qe.query_state ≡ SearchState.query_pending_distance
      → (Distance.distance_done current_cycle e p).1.qe.query_state ≡ SearchState.query_get_data
      → (p.returned ≡ false)
        × (e.qe.remaining_cycle ≡ 0)
        × All CanEnd e.qe.dc_task_list
        × All (λ t. t.state ≡ sort_finished) p.value
        × ((Distance.distance_done current_cycle e p).1.qe.dc_task_list ≡ [])
  unfolding Distance.distance_done distance_scan Distance.step_done
  distance_done_complete e p h w left = elim (Bool-cases p.returned) [
    | inl back ↦ absurd (ground arith)
    | inr on ↦ elim (Bool-cases (p.state.all_sort_ready && p.state.all_distance_ready)) [
      | inl ready ↦ elim (Bool-cases (e.qe.remaining_cycle == 0)) [
        | inl zero_left ↦ (
          on,
          (==_iff e.qe.remaining_cycle 0).0 zero_left,
          (for_each-ready_before (task_visit current_cycle e.qe.qe_name e.qe.query_id) settled
              CanEnd
              (λ t s r g o k.
                let (start, (_, can)) =
                  task_visit-done current_cycle e.qe.qe_name e.qe.query_id t s r g o k in
                (start, can))
              e.qe.dc_task_list _ p h on ready).1,
          (for_each-ready (task_visit current_cycle e.qe.qe_name e.qe.query_id) settled
              (λ t. t.state ≡ sort_finished)
              (λ t s r g o k.
                let (start, (done, _)) =
                  task_visit-done current_cycle e.qe.qe_name e.qe.query_id t s r g o k in
                (start, done))
              e.qe.dc_task_list _ p h on ready).1,
          ground arith,
        )
        | inr wait ↦ absurd (ground arith)
      ]
      | inr wait ↦ absurd (ground arith)
    ]
  ]

  -- An engine that leaves `query_pending_distance` for the next step of the search began this cycle
  -- with every task of the step marked as inserted, or marked as measured with no comparison cycles
  -- left; it has gone through all of them without a return and marked each as inserted, has no
  -- cycles left to wait, and has dropped the tasks.
  pub step_complete :
      (e : Engine R F) (b : Bool) (e' : Engine R F)
      → do_cycle cfg index current_cycle e ≡ some (b, e')
      → e.qe.query_state ≡ SearchState.query_pending_distance
      → e'.qe.query_state ≡ SearchState.query_get_data
      → StepIsComplete e e'
  unfolding do_cycle working by_state Distance.query_pending_distance
  step_complete e b e' h w left = elim (Option-cases (distance_scan current_cycle (started e))) [
    | inl faults ↦ absurd (ground arith)
    | inr (p, scan) ↦
        let (on, waited, could, all, dropped) = distance_done_complete (started e) p scan w (
          subst (λ t. t.qe.query_state ≡ SearchState.query_get_data) (sym (concluded p scan))
            left) in
        (
          p,
          scan,
          on,
          waited,
          could,
          all,
          subst (λ t. t.qe.dc_task_list ≡ []) (concluded p scan) dropped,
        )
  ]
    where
      concluded :
          (p : Pass (List QeDcTask) DistanceScan)
          → distance_scan current_cycle (started e) ≡ some p
          → (Distance.distance_done current_cycle (started e) p).1 ≡ e'
      concluded p scan = ground arith
