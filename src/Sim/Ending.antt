-- ===== src/Sim/Ending.antt =====
-- When the main loop of bins/simulation.cc ends.
use near_mem_nsg.Base.{
  ℕ, suc, ◌+◌, ◌%◌, ◌≡◌, refl, sym, ap, subst, ◌∙◌, inl, inr, Bool, true, none, some, arith, ◌==◌,
  Bool-cases, Option-cases, >>=-eq-some,
}
use near_mem_nsg.Struct.{SearchState}
use near_mem_nsg.TaskQueue.{empty}
use near_mem_nsg.Component.{cycle}
use near_mem_nsg.Controller
use near_mem_nsg.Dc
use near_mem_nsg.Mapping.{int}
use near_mem_nsg.Qe
use near_mem_nsg.Qe.Finish.{next_step, do_cycle_finish}
use near_mem_nsg.Ramulator.{MemoryBase}
use near_mem_nsg.Ramulator
use near_mem_nsg.Sim.{
  World, controller_cycle, engine_cycle, computer_cycle, memory_cycle, memory_turn, round, all_end,
  simulate, next_cycle,
}

module _ {R F M : Type 0} (cfg : Qe.Config R F) (index : Qe.Index R F) (units : Dc.Config)
    (mem : MemoryBase M) where
  -- A controller that has sent every query changes nothing.
  controller_sent :
      (w w' : World R F M)
      → Controller.all_end w.controller ≡ true
      → controller_cycle cfg index units mem w ≡ some w'
      → (w'.controller ≡ w.controller) × (w'.engine ≡ w.engine) × (w'.computer ≡ w.computer)
  unfolding controller_cycle cycle Controller.do_cycle Controller.all_end Controller.have_next_task
  controller_sent w w' sent h = (ground arith, ground arith, ground arith)

  engine_ends :
      (w w' : World R F M)
      → w.engine.qe.query_state ≡ SearchState.query_get_data
      → (next_step cfg index w.current_cycle w.engine).next_k ≡ none
      → engine_cycle cfg index units mem w ≡ some w'
      → (w'.controller ≡ w.controller)
        × (w'.computer ≡ w.computer)
        × (w'.engine.qe.query_state ≡ SearchState.query_finish)
        × (w'.engine.ports ≡ w.engine.ports)
  unfolding engine_cycle cycle
  engine_ends w w' s n h = elim (Option-cases (Qe.do_cycle cfg index w.current_cycle w.engine)) [
    | inl faults ↦ absurd (ground arith)
    | inr ((b, e), d) ↦
        let (ended, kept) = do_cycle_finish cfg index w.current_cycle w.engine b e s n d in
        (ground arith, ground arith, ground (ended, arith), ground (kept, arith))
  ]

  computer_rests :
      (w w' : World R F M)
      → w.computer.dc_work_finished ≡ true
      → empty w.engine.ports.distance ≡ true
      → computer_cycle cfg index units mem w ≡ some w'
      → (w'.controller ≡ w.controller) × (w'.computer ≡ w.computer) × (w'.engine ≡ w.engine)
  unfolding computer_cycle cycle Dc.do_cycle Dc.working Dc.accept
  computer_rests w w' idle none_sent h = (ground arith, ground arith, ground arith)

  memory_apart :
      (w w' : World R F M)
      → memory_turn cfg index units mem w ≡ some w'
      → (w'.controller ≡ w.controller)
        × (w'.computer ≡ w.computer)
        × (w'.engine.qe ≡ w.engine.qe)
        × (w'.engine.ports.tasks ≡ w.engine.ports.tasks)
  unfolding memory_turn memory_cycle cycle
  memory_apart w w' h = elim (Bool-cases (w.combined_cycle % 2 == 0)) [
    | inr odd ↦ (ground arith, ground arith, ground arith, ground arith)
    | inl even ↦ elim (Option-cases (Ramulator.do_cycle mem s)) [
      | inl faults ↦ absurd (ground arith)
      | inr ((b, t), d) ↦ (ground arith, ground arith, ground arith, ground arith)
    ]
  ]
    where
      s : Ramulator.State M
      s = record {
        wrapper = w.memory;
        in_queue = w.engine.ports.mem;
        out_queue = w.engine.ports.mem_ret;
      }

  -- A round that does not fault is the four cycles, one after the other.
  round_cases :
      (w w' : World R F M)
      → round cfg index units mem w ≡ some w'
      → (combined : ℕ) × (w1 : World R F M) × (w2 : World R F M) × (w3 : World R F M)
        × (controller_cycle cfg index units mem (record w { combined_cycle = combined }) ≡ some w1)
        × (engine_cycle cfg index units mem (next_cycle cfg index units mem w1) ≡ some w2)
        × (computer_cycle cfg index units mem (next_cycle cfg index units mem w2) ≡ some w3)
        × (memory_turn cfg index units mem (next_cycle cfg index units mem w3) ≡ some w')
  unfolding round
  round_cases w w' h =
      let (combined, i, h') = >>=-eq-some (int (w.combined_cycle + 1)) _ h in
      let (w1, h1, k) =
        >>=-eq-some (controller_cycle cfg index units mem (record w { combined_cycle = combined }))
          _ h' in
      let (w2, h2, k') =
        >>=-eq-some (engine_cycle cfg index units mem (next_cycle cfg index units mem w1)) _ k in
      let (w3, h3, h4) =
        >>=-eq-some (computer_cycle cfg index units mem (next_cycle cfg index units mem w2)) _ k' in
      (combined, w1, w2, w3, h1, h2, h3, h4)

  -- The last round for an engine whose search ends: the loop may stop, whatever waits in the channel
  -- of the queries.
  round-ends :
      (w w' : World R F M)
      → Controller.all_end w.controller ≡ true
      → w.engine.qe.query_state ≡ SearchState.query_get_data
      → (next_step cfg index w.current_cycle w.engine).next_k ≡ none
      → w.computer.dc_work_finished ≡ true
      → empty w.engine.ports.distance ≡ true
      → round cfg index units mem w ≡ some w'
      → (all_end cfg index units mem w' ≡ true) × (w'.engine.ports.tasks ≡ w.engine.ports.tasks)
  unfolding all_end Qe.all_end Qe.working Dc.all_end Dc.working
  round-ends w w' sent s n idle none_sent h =
      let (combined, w1, w2, w3, h1, h2, h3, h4) = round_cases w w' h in
      let (c1, e1, d1) = controller_sent (record w { combined_cycle = combined }) w1 sent h1 in
      let (c2, d2, e2, p2) =
        engine_ends (next_cycle cfg index units mem w1) w2
          (subst (λ e. e.qe.query_state ≡ SearchState.query_get_data) (sym e1) s)
          (subst (λ e. (next_step cfg index w.current_cycle e).next_k ≡ none) (sym e1) n) h2 in
      let p1 = p2 ∙ ap (λ e. e.ports) e1 in
      let (c3, d3, e3) =
        computer_rests (next_cycle cfg index units mem w2) w3
          (subst (λ c. c.dc_work_finished ≡ true) (sym (d2 ∙ d1)) idle)
          (subst (λ p. empty p.distance ≡ true) (sym p1) none_sent) h3 in
      let (c4, d4, e4, p4) = memory_apart (next_cycle cfg index units mem w3) w' h4 in
      let sent' = subst (λ c. Controller.all_end c ≡ true) (sym (c4 ∙ c3 ∙ c2 ∙ c1)) sent in
      let ended = ap (λ q. q.query_state) e4 ∙ ap (λ e. e.qe.query_state) e3 ∙ e2 in
      let idle' = subst (λ c. c.dc_work_finished ≡ true) (sym (d4 ∙ d3 ∙ d2 ∙ d1)) idle in
      (rw (sent', ended, idle') refl, p4 ∙ ap (λ e. e.ports.tasks) e3 ∙ ap (λ p. p.tasks) p1)

  -- The loop drops queries. Let the controller have sent all of its queries, the search of the
  -- engine be at its end, and the distance computer idle with no task sent to it. A simulation that
  -- does not fault ends with the next round, and the queries that wait in the channel are still
  -- there.
  pub simulate_drops :
      (n : ℕ) (w w' : World R F M) (ended : Bool)
      → Controller.all_end w.controller ≡ true
      → w.engine.qe.query_state ≡ SearchState.query_get_data
      → (next_step cfg index w.current_cycle w.engine).next_k ≡ none
      → w.computer.dc_work_finished ≡ true
      → empty w.engine.ports.distance ≡ true
      → simulate cfg index units mem (suc n) w ≡ some (ended, w')
      → (ended ≡ true) × (w'.engine.ports.tasks ≡ w.engine.ports.tasks)
  unfolding simulate
  simulate_drops n w w' ended sent s k idle none_sent h =
      let (u, r, h') = >>=-eq-some (round cfg index units mem w) _ h in
      let (stop, kept) = round-ends w u sent s k idle none_sent r in
      let same : u ≡ w' = ground arith in
      (ground arith, subst (λ v. v.engine.ports.tasks ≡ w.engine.ports.tasks) same kept)
