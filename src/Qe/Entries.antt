-- ===== src/Qe/Entries.antt =====
-- The end of `query_init` in src/qe.cc.
use near_mem_nsg.Base.{
  ℕ, suc, ◌≡◌, refl, sym, ap, subst, ◌∙◌, inl, inr, Bool, true, false, Option, some, List, [], ◌∷◌,
  arith, ltb, ltb→le, Bool-cases, Option-cases, length, take, drop, All, take-append, length-take,
}
use near_mem_nsg.Struct.{SearchState, RequestState, not_send, inflight, finished}
use near_mem_nsg.TaskQueue.{full, push}
use near_mem_nsg.TaskQueue.Bounds.{receiver_cases}
use near_mem_nsg.Qe.State.{Index, Config, Engine}
use near_mem_nsg.Qe.Loop.{Pass, for_each}
use near_mem_nsg.Qe.Rule.{for_each-ready, for_each-cases}
use near_mem_nsg.Qe.Init.{InitScan, init_request, init_scan}
use near_mem_nsg.Qe.Init
use near_mem_nsg.Qe.Phases.{started}
use near_mem_nsg.Qe.Discipline.{init_stage-cases}
use near_mem_nsg.Qe.Cycle.{do_cycle, by_state, working}

-- A loop keeps the number of elements.
module _ {ℓ κ} {A : Type ℓ} {S : Type κ} (body : A → S → Option (Pass A S)) where
  pub length-for_each :
      (xs : List A) (s : S) (p : Pass (List A) S)
      → for_each body xs s ≡ some p
      → length p.value ≡ length xs
  unfolding for_each
  length-for_each [] s p h = ground arith
  length-for_each (x ∷ xs) s p h =
      let (r, b, c) = for_each-cases body x xs s p h in
      elim c [
        | inl (back, same) ↦ subst (λ q. length q.value ≡ suc (length xs)) same refl
        | inr (q, on, rest, same) ↦
            subst (λ t. length t.value ≡ suc (length xs)) same
              (ap suc (length-for_each xs r.state q rest))
      ]

module _ (qe_name query_id : ℕ) (node_id : ℕ → Option ℕ) where
  init_request-done :
      (x : RequestState) (s : InitScan) (r : Pass RequestState InitScan)
      → init_request qe_name query_id node_id x s ≡ some r
      → r.returned ≡ false
      → r.state.dc_ready_all ≡ true
      → (s.dc_ready_all ≡ true) × (r.value ≡ finished)
  unfolding init_request
  init_request-done finished s r h on ready = (ground arith, ground arith)
  init_request-done not_send s r h on ready = elim (Bool-cases (full s.ports.distance)) [
    | inl f ↦ absurd (ground arith)
    | inr f ↦ elim (Option-cases (node_id s.i)) [
      | inl absent ↦ absurd (ground arith)
      | inr (id, at) ↦
          elim (Option-cases (
            push (record { qe_name = qe_name; query_id = query_id; node_id = id })
              s.ports.distance)) [
                | inl faults ↦ absurd (ground arith)
                | inr (c, g) ↦ absurd (ground arith)
              ]
    ]
  ]
  init_request-done inflight s r h on ready = elim (receiver_cases s.ports.return_distance) [
    | inl f ↦ absurd (ground arith)
    | inr (y, c, f, g, q) ↦ elim (Option-cases (node_id s.i)) [
      | inl absent ↦ absurd (ground arith)
      | inr (id, at) ↦ elim (Bool-cases (Init.matches qe_name query_id id y)) [
        | inl own ↦ absurd (ground arith)
        | inr other ↦ absurd (ground arith)
      ]
    ]
  ]

module _ {R F : Type 0} (cfg : Config R F) (index : Index R F) (current_cycle : ℕ) where
  init_done_complete :
      (e : Engine R F) (p : Pass (List RequestState) InitScan) (r : R)
      → init_scan cfg index e ≡ some p
      → e.qe.query_state ≡ SearchState.query_init
      → (Init.init_done cfg index e (p, r)).1.qe.query_state ≡ SearchState.query_init_finish
      → All
          (λ st. st ≡ finished)
          (take cfg.l (Init.init_done cfg index e (p, r)).1.qe.init_dc_state)
  unfolding Init.init_done init_scan
  init_done_complete e p r h w left = elim (Bool-cases (ltb (length e.qe.init_dc_state) cfg.l)) [
    | inl short ↦ absurd (ground arith)
    | inr fits ↦ elim (Bool-cases p.returned) [
      | inl back ↦ absurd (ground arith)
      | inr on ↦ elim (Bool-cases p.state.dc_ready_all) [
        | inl ready ↦
            subst (All (λ st. st ≡ finished)) (same fits on ready)
              (for_each-ready visit (λ s. s.dc_ready_all) (λ st. st ≡ finished)
                (init_request-done e.qe.qe_name e.qe.query_id (index.node_id e.qe.retset))
                (take cfg.l e.qe.init_dc_state) first p (scanned fits) on ready).1
        | inr wait ↦ absurd (ground arith)
      ]
    ]
  ]
    where
      visit : RequestState → InitScan → Option (Pass RequestState InitScan)
      visit = init_request e.qe.qe_name e.qe.query_id (index.node_id e.qe.retset)

      first : InitScan
      first = record { i = 0; dc_ready_all = true; ports = e.ports }

      scanned :
          ltb (length e.qe.init_dc_state) cfg.l ≡ false
          → for_each visit (take cfg.l e.qe.init_dc_state) first ≡ some p
      scanned fits = ground arith

      same :
          ltb (length e.qe.init_dc_state) cfg.l ≡ false
          → p.returned ≡ false
          → p.state.dc_ready_all ≡ true
          → p.value ≡ take cfg.l (Init.init_done cfg index e (p, r)).1.qe.init_dc_state
      same fits on ready =
          rw (on, ready)
            (sym (
              take-append p.value (drop cfg.l e.qe.init_dc_state) cfg.l (
                length-for_each visit (take cfg.l e.qe.init_dc_state) first p (scanned fits)
                ∙ length-take e.qe.init_dc_state cfg.l
                    (ltb→le (length e.qe.init_dc_state) cfg.l fits))))

  -- An engine that leaves `query_init` for `query_init_finish` has got back the distance of each of
  -- its first `L` entries.
  pub init_distances_complete :
      (e : Engine R F) (b : Bool) (e' : Engine R F)
      → do_cycle cfg index current_cycle e ≡ some (b, e')
      → e.qe.query_state ≡ SearchState.query_init
      → e'.qe.query_state ≡ SearchState.query_init_finish
      → All (λ st. st ≡ finished) (take cfg.l e'.qe.init_dc_state)
  unfolding do_cycle working by_state Init.query_init
  init_distances_complete e b e' h w left =
      elim (Option-cases (Init.init_stage cfg index (started e))) [
        | inl faults ↦ absurd (ground arith)
        | inr ((p, r), stage) ↦
            subst (λ t. All (λ st. st ≡ finished) (take cfg.l t.qe.init_dc_state))
              (concluded p r stage)
              (init_done_complete (started e) p r
                (init_stage-cases cfg index (started e) p r stage).0 w
                (subst (λ t. t.qe.query_state ≡ SearchState.query_init_finish)
                  (sym (concluded p r stage)) left))
      ]
    where
      concluded :
          (p : Pass (List RequestState) InitScan) (r : R)
          → Init.init_stage cfg index (started e) ≡ some (p, r)
          → (Init.init_done cfg index (started e) (p, r)).1 ≡ e'
      concluded p r stage = ground arith
