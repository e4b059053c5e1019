-- ===== src/Qe/Transitions.antt =====
-- The state machine of a query engine of src/qe.cc.
use near_mem_nsg.Base.{
  ℕ, ◌≡◌, refl, sym, subst, ◌≢◌, inl, inr, Bool, true, ◌&&◌, Option, none, some, List, [], ◌∷◌,
  arith, ltb, ◌==◌, Bool-cases, Option-cases, length,
}
use near_mem_nsg.Struct.{
  SearchState, query_init, query_init_finish, query_get_data, query_pending_edge,
  query_pending_distance, query_finish, RequestState, QeMemState, QeDcTask,
}
use near_mem_nsg.TaskQueue.Bounds.{receiver_cases}
use near_mem_nsg.Mapping.{address_mapping}
use near_mem_nsg.Qe.State.{SearchStep, Index, Config, Engine}
use near_mem_nsg.Qe.Loop.{Pass}
use near_mem_nsg.Qe.Phases.{started}
use near_mem_nsg.Qe.Discipline.{stage_by}
use near_mem_nsg.Qe.Init
use near_mem_nsg.Qe.GetData
use near_mem_nsg.Qe.GetData.{make_tasks}
use near_mem_nsg.Qe.Edge
use near_mem_nsg.Qe.Edge.{EdgeScan}
use near_mem_nsg.Qe.Distance
use near_mem_nsg.Qe.Vector.{DistanceScan}
use near_mem_nsg.Qe.Cycle.{do_cycle, by_state, working}

-- The transitions of one cycle.
pub data Transition : SearchState → SearchState → Type 0 where
  stays : (s : SearchState) → Transition s s
  takes_query : Transition query_finish query_init
  gets_distances : Transition query_init query_init_finish
  sorts_initial : Transition query_init_finish query_get_data
  ends_search : Transition query_get_data query_finish
  expands : Transition query_get_data query_pending_edge
  gets_edges : Transition query_pending_edge query_pending_distance
  ends_step : Transition query_pending_distance query_get_data

module _ {R F : Type 0} where
  -- A transition that keeps the name of the engine, and the query unless there is none.
  abbrev pub Evolves : Engine R F → Engine R F → Type 0
  Evolves e e' =
      Transition e.qe.query_state e'.qe.query_state
      × (e'.qe.qe_name ≡ e.qe.qe_name)
      × (e.qe.query_state ≢ query_finish → e'.qe.query_id ≡ e.qe.query_id)

  -- A transition from the state that the engine is in.
  moves_to :
      (e e' : Engine R F) (s s' : SearchState)
      → Transition s s'
      → e.qe.query_state ≡ s
      → e'.qe.query_state ≡ s'
      → e'.qe.qe_name ≡ e.qe.qe_name
      → (e.qe.query_state ≢ query_finish → e'.qe.query_id ≡ e.qe.query_id)
      → Evolves e e'
  moves_to e e' s s' t w w' n i =
      (subst (λ x. Transition x e'.qe.query_state) (sym w) (subst (Transition s) (sym w') t), n, i)

  remains :
      (e e' : Engine R F)
      → e'.qe.query_state ≡ e.qe.query_state
      → e'.qe.qe_name ≡ e.qe.qe_name
      → (e.qe.query_state ≢ query_finish → e'.qe.query_id ≡ e.qe.query_id)
      → Evolves e e'
  remains e e' w n i =
      moves_to e e' e.qe.query_state e.qe.query_state (Transition.stays e.qe.query_state) refl w n i

module _ {R F : Type 0} (cfg : Config R F) (index : Index R F) (current_cycle : ℕ) where
  init-Evolves :
      (e : Engine R F) (b : Bool) (e' : Engine R F)
      → e.qe.query_state ≡ query_init
      → Init.query_init cfg index e ≡ some (b, e')
      → Evolves e e'
  unfolding Init.query_init Init.init_done
  init-Evolves e b e' w =
      stage_by (Init.init_stage cfg index e) (Init.init_done cfg index e) (Evolves e)
        (λ (p, r) h. concluded p r) b e'
    where
      after : Pass (List RequestState) Init.InitScan → R → Engine R F
      after p r = (Init.init_done cfg index e (p, r)).1

      concluded : (p : Pass (List RequestState) Init.InitScan) (r : R) → Evolves e (after p r)
      concluded p r = elim (Bool-cases p.returned) [
        | inl back ↦ remains e (after p r) (ground arith) (ground arith) (λ _. ground arith)
        | inr on ↦ elim (Bool-cases p.state.dc_ready_all) [
          | inl ready ↦
              moves_to e (after p r) query_init query_init_finish Transition.gets_distances w
                (ground arith) (ground arith) (λ _. ground arith)
          | inr wait ↦ remains e (after p r) (ground arith) (ground arith) (λ _. ground arith)
        ]
      ]

  init_finish-Evolves :
      (e : Engine R F) (b : Bool) (e' : Engine R F)
      → e.qe.query_state ≡ query_init_finish
      → Init.query_init_finish cfg index e ≡ some (b, e')
      → Evolves e e'
  unfolding Init.query_init_finish
  init_finish-Evolves e b e' w h = elim (Bool-cases (e.qe.remaining_cycle == 0)) [
    | inl now ↦
        moves_to e e' query_init_finish query_get_data Transition.sorts_initial w (ground arith)
          (ground arith) (λ _. ground arith)
    | inr wait ↦ remains e e' (ground arith) (ground arith) (λ _. ground arith)
  ]

  issue-Evolves :
      (e : Engine R F) (st : SearchStep R F) (b : Bool) (e' : Engine R F)
      → e.qe.query_state ≡ query_get_data
      → GetData.issue cfg index current_cycle e st ≡ some (b, e')
      → Evolves e e'
  unfolding GetData.issue
  issue-Evolves e st b e' w h =
      elim (Option-cases (address_mapping cfg.layout index.edges st.edge_table_id true [] 0)) [
        | inl faults ↦ absurd (ground arith)
        | inr ((addrs, lines), edges) ↦
            elim (Option-cases (
              make_tasks cfg index e.qe.qe_name e.qe.query_id st.target_ids st.compare_latency 0)) [
                | inl faults ↦ absurd (ground arith)
                | inr ((tasks, total), vectors) ↦
                    moves_to e e' query_get_data query_pending_edge Transition.expands w
                      (ground arith) (ground arith) (λ _. ground arith)
              ]
      ]

  by_step-Evolves :
      (e : Engine R F) (st : SearchStep R F) (k : Option ℕ) (ids : List ℕ) (b : Bool)
      (e' : Engine R F)
      → e.qe.query_state ≡ query_get_data
      → GetData.by_step cfg index current_cycle e st k ids ≡ some (b, e')
      → Evolves e e'
  unfolding GetData.by_step
  by_step-Evolves e st none ids b e' w h =
      moves_to e e' query_get_data query_finish Transition.ends_search w (ground arith)
        (ground arith) (λ _. ground arith)
  by_step-Evolves e st (some k) [] b e' w h =
      remains e e' (ground arith) (ground arith) (λ _. ground arith)
  by_step-Evolves e st (some k) (id ∷ ids) b e' w h = issue-Evolves e st b e' w h

  get_data-Evolves :
      (e : Engine R F) (b : Bool) (e' : Engine R F)
      → e.qe.query_state ≡ query_get_data
      → GetData.query_get_data cfg index current_cycle e ≡ some (b, e')
      → Evolves e e'
  unfolding GetData.query_get_data
  get_data-Evolves e b e' w h = by_step-Evolves e _ _ _ b e' w h

  edge-Evolves :
      (e : Engine R F) (b : Bool) (e' : Engine R F)
      → e.qe.query_state ≡ query_pending_edge
      → Edge.query_pending_edge current_cycle e ≡ some (b, e')
      → Evolves e e'
  unfolding Edge.query_pending_edge Edge.edge_done
  edge-Evolves e b e' w =
      stage_by (Edge.edge_scan current_cycle e) (Edge.edge_done current_cycle e) (Evolves e)
        (λ p h. concluded p) b e'
    where
      after : Pass (List QeMemState) EdgeScan → Engine R F
      after p = (Edge.edge_done current_cycle e p).1

      concluded : (p : Pass (List QeMemState) EdgeScan) → Evolves e (after p)
      concluded p = elim (Bool-cases p.returned) [
        | inl back ↦ remains e (after p) (ground arith) (ground arith) (λ _. ground arith)
        | inr on ↦ elim (Bool-cases p.state.all_edge_read_done) [
          | inl ready ↦
              moves_to e (after p) query_pending_edge query_pending_distance Transition.gets_edges w
                (ground arith) (ground arith) (λ _. ground arith)
          | inr wait ↦ remains e (after p) (ground arith) (ground arith) (λ _. ground arith)
        ]
      ]

  distance-Evolves :
      (e : Engine R F) (b : Bool) (e' : Engine R F)
      → e.qe.query_state ≡ query_pending_distance
      → Distance.query_pending_distance current_cycle e ≡ some (b, e')
      → Evolves e e'
  unfolding Distance.query_pending_distance Distance.distance_done Distance.step_done
  distance-Evolves e b e' w =
      stage_by (Distance.distance_scan current_cycle e) (Distance.distance_done current_cycle e)
        (Evolves e) (λ p h. concluded p) b e'
    where
      after : Pass (List QeDcTask) DistanceScan → Engine R F
      after p = (Distance.distance_done current_cycle e p).1

      concluded : (p : Pass (List QeDcTask) DistanceScan) → Evolves e (after p)
      concluded p = elim (Bool-cases p.returned) [
        | inl back ↦ remains e (after p) (ground arith) (ground arith) (λ _. ground arith)
        | inr on ↦ elim (Bool-cases (p.state.all_sort_ready && p.state.all_distance_ready)) [
          | inl ready ↦ elim (Bool-cases (e.qe.remaining_cycle == 0)) [
            | inl now ↦
                moves_to e (after p) query_pending_distance query_get_data Transition.ends_step w
                  (ground arith) (ground arith) (λ _. ground arith)
            | inr more ↦ remains e (after p) (ground arith) (ground arith) (λ _. ground arith)
          ]
          | inr wait ↦ remains e (after p) (ground arith) (ground arith) (λ _. ground arith)
        ]
      ]

  fetch-Evolves :
      (e : Engine R F) (b : Bool) (e' : Engine R F)
      → e.qe.query_state ≡ query_finish
      → Init.fetch cfg index e ≡ some (b, e')
      → Evolves e e'
  unfolding Init.fetch
  fetch-Evolves e b e' w h = elim (receiver_cases e.ports.tasks) [
    | inl none_there ↦ remains e e' (ground arith) (ground arith) (λ _. ground arith)
    | inr (x, c, there, g, q) ↦ elim (Bool-cases (ltb (length e.qe.init_dc_state) cfg.l)) [
      | inl short ↦ absurd (ground arith)
      | inr fits ↦
          moves_to e e' query_finish query_init Transition.takes_query w (ground arith)
            (ground arith) (λ n. absurd (n w))
    ]
  ]

  -- A cycle of an engine that does not fault leaves its state or takes one of seven transitions: it takes a query, gets
  -- the distances of the initial ids, is done sorting them, ends the search or expands a node, gets
  -- the edges of the node, ends the step. The name of the engine stays, and so does its query,
  -- unless it had finished the last one.
  pub do_cycle-Evolves :
      (e : Engine R F) (b : Bool) (e' : Engine R F)
      → do_cycle cfg index current_cycle e ≡ some (b, e')
      → Evolves e e'
  unfolding do_cycle by_state working
  do_cycle-Evolves e b e' h = by_query_state e.qe.query_state refl
    where
      by_query_state : (st : SearchState) → e.qe.query_state ≡ st → Evolves e e'
      by_query_state query_init w = init-Evolves (started e) b e' w (ground arith)
      by_query_state query_init_finish w = init_finish-Evolves (started e) b e' w (ground arith)
      by_query_state query_get_data w = get_data-Evolves (started e) b e' w (ground arith)
      by_query_state query_pending_edge w = edge-Evolves (started e) b e' w (ground arith)
      by_query_state query_pending_distance w = distance-Evolves (started e) b e' w (ground arith)
      by_query_state query_finish w = fetch-Evolves e b e' w (ground arith)
