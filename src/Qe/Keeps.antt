-- ===== src/Qe/Keeps.antt =====
-- What the states of a query engine of src/qe.cc leave alone: the search, but where they work on it.
use near_mem_nsg.Base.{
  ℕ, zero, suc, ◌+◌, ◌≤◌, ◌≡◌, ap, ◌∙◌, ◌⊎◌, inl, inr, Bool, true, false, ◌&&◌, some, List, [], ◌∷◌,
  ◌++◌, arith, ltb, ◌==◌, Bool-cases, length, take, drop, replicate, length-append,
  length-replicate, length-take,
}
use near_mem_nsg.Struct.{
  SearchState, query_init, query_init_finish, query_get_data, query_pending_distance, RequestState,
  not_send, NsgTask, QeMemState, QeDcTask,
}
use near_mem_nsg.Qe.State.{Index, Config, QueryEngine, Engine}
use near_mem_nsg.TaskQueue.{Channel, pop}
use near_mem_nsg.TaskQueue.Bounds.{receiver_cases}
use near_mem_nsg.Qe.Loop.{Pass}
use near_mem_nsg.Qe.Rule.{for_each-length}
use near_mem_nsg.Qe.Discipline.{stage_by, init_stage-cases}
use near_mem_nsg.Qe.Init
use near_mem_nsg.Qe.Init.{init_request}
use near_mem_nsg.Qe.Edge
use near_mem_nsg.Qe.Edge.{EdgeScan}
use near_mem_nsg.Qe.Distance
use near_mem_nsg.Qe.Vector.{DistanceScan}

module _ {R F : Type 0} where
  -- The search and the number of initial states stay.
  pub record Keeps (q q' : QueryEngine R F) : Type 0 where
    pub retset : q'.retset ≡ q.retset
    pub flags : q'.flags ≡ q.flags
    pub init_ids : q'.init_ids ≡ q.init_ids
    pub query_id : q'.query_id ≡ q.query_id
    pub while_k : q'.while_k ≡ q.while_k
    pub states : length q'.init_dc_state ≡ length q.init_dc_state

  -- They stay, and the state does or is this one.
  abbrev pub KeepsOrGoes : SearchState → Engine R F → Engine R F → Type 0
  KeepsOrGoes st e e' =
      Keeps e.qe e'.qe × ((e'.qe.query_state ≡ e.qe.query_state) ⊎ (e'.qe.query_state ≡ st))

  -- All but the search is as in `Keeps`: the state is this one, with that result set.
  abbrev pub Refills : SearchState → R → Engine R F → Engine R F → Type 0
  Refills st r e e' =
      (e'.qe.query_state ≡ st)
      × (e'.qe.retset ≡ r)
      × Keeps e.qe (record e'.qe { retset = e.qe.retset })

-- A query has been taken over: its id, and the initial values of a search.
pub record Fetched {R F : Type 0} (cfg : Config R F) (task : NsgTask) (q q' : QueryEngine R F)
    : Type 0 where
  pub state : q'.query_state ≡ query_init
  pub retset : q'.retset ≡ cfg.global_retset
  pub flags : q'.flags ≡ cfg.global_flags
  pub init_ids : q'.init_ids ≡ cfg.global_init_ids
  pub query_id : q'.query_id ≡ task.query_id
  pub states : length q'.init_dc_state ≡ length q.init_dc_state

length-split :
    {A : Type 0} (xs : List A) (n : ℕ) → length (take n xs) + length (drop n xs) ≡ length xs
length-split [] zero = omega arith
length-split [] (suc n) = omega arith
length-split (x ∷ xs) zero = omega arith
length-split (x ∷ xs) (suc n) = omega (arith, length-split xs n)

module _ {R F : Type 0} (cfg : Config R F) (index : Index R F) (current_cycle : ℕ) where
  init_scan-length :
      (e : Engine R F) (p : Pass (List RequestState) Init.InitScan)
      → Init.init_scan cfg index e ≡ some p
      → length (p.value ++ drop cfg.l e.qe.init_dc_state) ≡ length e.qe.init_dc_state
  unfolding Init.init_scan
  init_scan-length e p h = elim (Bool-cases (ltb (length e.qe.init_dc_state) cfg.l)) [
    | inl short ↦ absurd (ground arith)
    | inr fits ↦
        let kept =
          for_each-length (init_request e.qe.qe_name e.qe.query_id (index.node_id e.qe.retset))
            (take cfg.l e.qe.init_dc_state) (record { i = 0; dc_ready_all = true; ports = e.ports })
            p (ground arith) in
        length-append p.value (drop cfg.l e.qe.init_dc_state)
        ∙ ap (λ n. n + length (drop cfg.l e.qe.init_dc_state)) kept
        ∙ length-split e.qe.init_dc_state cfg.l
  ]

  -- `query_init` has filled the result set and is done, or goes on.
  abbrev pub Begins : Engine R F → Engine R F → Type 0
  Begins e e' =
      (Keeps e.qe e'.qe × (e'.qe.query_state ≡ e.qe.query_state))
      ⊎ ((r : R) × (index.new_search_init e.qe.init_ids e.qe.retset e.qe.query_id ≡ some r)
          × Refills query_init_finish r e e')

  pub init-Keeps :
      (e : Engine R F) (b : Bool) (e' : Engine R F)
      → Init.query_init cfg index e ≡ some (b, e')
      → Begins e e'
  unfolding Init.query_init Init.init_done Init.init_filled
  init-Keeps e =
      stage_by (Init.init_stage cfg index e) (Init.init_done cfg index e) (Begins e) (λ (p, r) h.
        let (scan, filled) = init_stage-cases cfg index e p r h in
        concluded p r filled (init_scan-length e p scan))
    where
      after : Pass (List RequestState) Init.InitScan → R → Engine R F
      after p r = (Init.init_done cfg index e (p, r)).1

      concluded :
          (p : Pass (List RequestState) Init.InitScan) (r : R)
          → Init.init_filled cfg index e p ≡ some r
          → length (p.value ++ drop cfg.l e.qe.init_dc_state) ≡ length e.qe.init_dc_state
          → Begins e (after p r)
      concluded p r filled n = elim (Bool-cases p.returned) [
        | inl back ↦ inl (
          record {
            retset = ground arith;
            flags = ground arith;
            init_ids = ground arith;
            query_id = ground arith;
            while_k = ground arith;
            states = ground (arith, n);
          },
          ground arith,
        )
        | inr on ↦ elim (Bool-cases p.state.dc_ready_all) [
          | inl ready ↦ inr (
            r,
            ground arith,
            (
              ground arith,
              ground arith,
              record {
                retset = ground arith;
                flags = ground arith;
                init_ids = ground arith;
                query_id = ground arith;
                while_k = ground arith;
                states = ground (arith, n);
              },
            ),
          )
          | inr wait ↦ inl (
            record {
              retset = ground arith;
              flags = ground arith;
              init_ids = ground arith;
              query_id = ground arith;
              while_k = ground arith;
              states = ground (arith, n);
            },
            ground arith,
          )
        ]
      ]

  pub edge-Keeps :
      (e : Engine R F) (b : Bool) (e' : Engine R F)
      → Edge.query_pending_edge current_cycle e ≡ some (b, e')
      → KeepsOrGoes query_pending_distance e e'
  unfolding Edge.query_pending_edge Edge.edge_done
  edge-Keeps e =
      stage_by (Edge.edge_scan current_cycle e) (Edge.edge_done current_cycle e)
        (KeepsOrGoes query_pending_distance e) (λ p h. concluded p)
    where
      after : Pass (List QeMemState) EdgeScan → Engine R F
      after p = (Edge.edge_done current_cycle e p).1

      concluded :
          (p : Pass (List QeMemState) EdgeScan) → KeepsOrGoes query_pending_distance e (after p)
      concluded p = elim (Bool-cases p.returned) [
        | inl back ↦ (
          record {
            retset = ground arith;
            flags = ground arith;
            init_ids = ground arith;
            query_id = ground arith;
            while_k = ground arith;
            states = ground arith;
          },
          inl (ground arith),
        )
        | inr on ↦ elim (Bool-cases p.state.all_edge_read_done) [
          | inl ready ↦ (
            record {
              retset = ground arith;
              flags = ground arith;
              init_ids = ground arith;
              query_id = ground arith;
              while_k = ground arith;
              states = ground arith;
            },
            inr (ground arith),
          )
          | inr wait ↦ (
            record {
              retset = ground arith;
              flags = ground arith;
              init_ids = ground arith;
              query_id = ground arith;
              while_k = ground arith;
              states = ground arith;
            },
            inl (ground arith),
          )
        ]
      ]

  pub distance-Keeps :
      (e : Engine R F) (b : Bool) (e' : Engine R F)
      → Distance.query_pending_distance current_cycle e ≡ some (b, e')
      → KeepsOrGoes query_get_data e e'
  unfolding Distance.query_pending_distance Distance.distance_done Distance.step_done
  distance-Keeps e =
      stage_by (Distance.distance_scan current_cycle e) (Distance.distance_done current_cycle e)
        (KeepsOrGoes query_get_data e) (λ p h. concluded p)
    where
      after : Pass (List QeDcTask) DistanceScan → Engine R F
      after p = (Distance.distance_done current_cycle e p).1

      concluded : (p : Pass (List QeDcTask) DistanceScan) → KeepsOrGoes query_get_data e (after p)
      concluded p = elim (Bool-cases p.returned) [
        | inl back ↦ (
          record {
            retset = ground arith;
            flags = ground arith;
            init_ids = ground arith;
            query_id = ground arith;
            while_k = ground arith;
            states = ground arith;
          },
          inl (ground arith),
        )
        | inr on ↦ elim (Bool-cases (p.state.all_sort_ready && p.state.all_distance_ready)) [
          | inl ready ↦ elim (Bool-cases (e.qe.remaining_cycle == 0)) [
            | inl now ↦ (
              record {
                retset = ground arith;
                flags = ground arith;
                init_ids = ground arith;
                query_id = ground arith;
                while_k = ground arith;
                states = ground arith;
              },
              inr (ground arith),
            )
            | inr more ↦ (
              record {
                retset = ground arith;
                flags = ground arith;
                init_ids = ground arith;
                query_id = ground arith;
                while_k = ground arith;
                states = ground arith;
              },
              inl (ground arith),
            )
          ]
          | inr wait ↦ (
            record {
              retset = ground arith;
              flags = ground arith;
              init_ids = ground arith;
              query_id = ground arith;
              while_k = ground arith;
              states = ground arith;
            },
            inl (ground arith),
          )
        ]
      ]

  pub init_finish-Keeps :
      (e : Engine R F) (b : Bool) (e' : Engine R F)
      → Init.query_init_finish cfg index e ≡ some (b, e')
      → (Keeps e.qe e'.qe × (e'.qe.query_state ≡ e.qe.query_state))
        ⊎ ((e'.qe.query_state ≡ query_get_data)
            × (e'.qe.while_k ≡ some 0)
            × Keeps e.qe (record e'.qe { while_k = e.qe.while_k }))
  unfolding Init.query_init_finish
  init_finish-Keeps e b e' h = elim (Bool-cases (e.qe.remaining_cycle == 0)) [
    | inl now ↦ inr (
      ground arith,
      ground arith,
      record {
        retset = ground arith;
        flags = ground arith;
        init_ids = ground arith;
        query_id = ground arith;
        while_k = ground arith;
        states = ground arith;
      },
    )
    | inr more ↦ inl (
      record {
        retset = ground arith;
        flags = ground arith;
        init_ids = ground arith;
        query_id = ground arith;
        while_k = ground arith;
        states = ground arith;
      },
      ground arith,
    )
  ]

  -- An engine that is not working has taken over a query, or is as it was.
  pub fetch-cases :
      (e : Engine R F) (b : Bool) (e' : Engine R F)
      → Init.fetch cfg index e ≡ some (b, e')
      → (e'.qe ≡ e.qe)
        ⊎ ((task : NsgTask) × (c : Channel NsgTask) × (pop e.ports.tasks ≡ some (task, c))
            × Fetched cfg task e.qe e'.qe)
  unfolding Init.fetch
  fetch-cases e b e' h = elim (receiver_cases e.ports.tasks) [
    | inl f ↦ inl (ground arith)
    | inr (task, c, f, g, q) ↦ elim (Bool-cases (ltb (length e.qe.init_dc_state) cfg.l)) [
      | inl short ↦ absurd (ground arith)
      | inr fits ↦ inr (
        task,
        c,
        q,
        record {
          state = ground arith;
          retset = ground arith;
          flags = ground arith;
          init_ids = ground arith;
          query_id = ground arith;
          states = ground (arith, refilled fits);
        },
      )
    ]
  ]
    where
      refilled :
          ltb (length e.qe.init_dc_state) cfg.l ≡ false
          → length (replicate cfg.l not_send ++ drop cfg.l e.qe.init_dc_state)
            ≡ length e.qe.init_dc_state
      refilled fits =
          let long : cfg.l ≤ length e.qe.init_dc_state = ground arith in
          omega (
            arith,
            length-append (replicate cfg.l not_send) (drop cfg.l e.qe.init_dc_state),
            length-replicate cfg.l not_send,
            length-take e.qe.init_dc_state cfg.l long,
            length-split e.qe.init_dc_state cfg.l,
          )
