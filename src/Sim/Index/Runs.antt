-- ===== src/Sim/Index/Runs.antt =====
-- An engine of src/qe.cc on the globals of bins/simulation.cc does not fault, whatever the other
-- components do to its channels.
use near_mem_nsg.Base.{
  ℕ, ◌≤◌, ◌≡◌, refl, sym, subst, inl, Bool, true, false, Option, some, List, [], ◌∷◌, arith, length,
  All, inc64,
}
use near_mem_nsg.Struct.{
  SearchState, query_init, query_init_finish, query_get_data, query_pending_edge,
  query_pending_distance, query_finish, RequestState, QeDcTask,
}
use near_mem_nsg.Nsg.Pool.{Neighbor}
use near_mem_nsg.Nsg.NewSearch.Start.{IsSort}
use near_mem_nsg.Qe.Init
use near_mem_nsg.Qe.GetData
use near_mem_nsg.Qe.Edge
use near_mem_nsg.Qe.Distance
use near_mem_nsg.Qe.{
  Ports, Trace, Stats, Config, Index, QueryEngine, Engine, do_cycle, by_state, working,
}
use near_mem_nsg.Sim.Setup.{Globals}
use near_mem_nsg.Sim.Index.{global_index, engine_globals, cycles, new_engine}
use near_mem_nsg.Sim.Index.Sound.{IsSetUp, IsSmall, SearchIn, IsSound, AreQueries, sound}
use near_mem_nsg.Sim.Index.Stages.{
  init-Succeeds, init_finish-Succeeds, edge-Succeeds, distance-Succeeds, fetch-Succeeds,
}
use near_mem_nsg.Sim.Index.Step.{get_data-Succeeds}

module _ {D : Type 0} (lt : D → D → Bool) (asym : (a b : D) → lt a b ≡ true → lt b a ≡ false)
    (chain : (a b c : D) → lt a b ≡ false → lt b c ≡ false → lt a c ≡ false) (dset : IsSet D)
    (compare : List ℕ → List ℕ → D) (symmetric : (a b : List ℕ) → compare a b ≡ compare b a)
    (sort : List (Neighbor D) → List (Neighbor D)) (sorts : IsSort lt sort) (l : ℕ)
    (unset : Neighbor D) (w : Globals D) (setup : IsSetUp l unset w) (small : IsSmall w) where
  abbrev E : Type 0
  E = Engine (Option (List (Neighbor D))) (List Bool)

  abbrev cfg : Config (Option (List (Neighbor D))) (List Bool)
  cfg = engine_globals lt compare sort l w

  abbrev index : Index (Option (List (Neighbor D))) (List Bool)
  index = global_index lt compare sort l w

  abbrev Sound : QueryEngine (Option (List (Neighbor D))) (List Bool) → Type 0
  Sound = IsSound lt asym chain compare l unset w setup

  abbrev Succeeds : Option (Bool × E) → Type 0
  Succeeds o = (b : Bool) × (e' : E) × (o ≡ some (b, e')) × Sound e'.qe

  -- One cycle.
  pub cycle-Succeeds :
      (now : ℕ) (e : E)
      → Sound e.qe
      → AreQueries lt asym chain compare l unset w setup e.ports.tasks
      → Succeeds (do_cycle cfg index now e)
  unfolding do_cycle by_state working
  cycle-Succeeds now e s queries = by_query_state e.qe.query_state refl s.search
    where
      started : E
      started = record e { stats = record e.stats { stall_qe = inc64 e.stats.stall_qe } }

      via :
          (o : Option (Bool × E))
          → do_cycle cfg index now e ≡ o
          → Succeeds o
          → Succeeds (do_cycle cfg index now e)
      via o same = subst Succeeds (sym same)

      by_query_state :
          (st : SearchState)
          → e.qe.query_state ≡ st
          → SearchIn lt asym chain compare l unset w setup st e.qe
          → Succeeds (do_cycle cfg index now e)
      by_query_state query_init same search =
          via (Init.query_init cfg index started) (ground arith) (
            init-Succeeds lt asym chain dset compare symmetric sort sorts l unset w setup started
              same s.room search)
      by_query_state query_init_finish same search =
          via (Init.query_init_finish cfg index started) (ground arith) (
            init_finish-Succeeds lt asym chain dset compare symmetric sort sorts l unset w setup
              started same s.room search)
      by_query_state query_get_data same search =
          via (GetData.query_get_data cfg index now started) (ground arith) (
            get_data-Succeeds lt asym chain compare sort l unset w setup small now started same
              s.room search)
      by_query_state query_pending_edge same search =
          via (Edge.query_pending_edge now started) (ground arith) (
            edge-Succeeds lt asym chain dset compare symmetric sort sorts l unset w setup now
              started same s.room search)
      by_query_state query_pending_distance same search =
          via (Distance.query_pending_distance now started) (ground arith) (
            distance-Succeeds lt asym chain dset compare symmetric sort sorts l unset w setup now
              started same s.room search)
      by_query_state query_finish same search = via (Init.fetch cfg index e) (ground arith) (
          fetch-Succeeds lt asym chain dset compare symmetric sort sorts l unset w setup e same
            s.room search queries)

  cycles-Succeed :
      (history : List (ℕ × Ports)) (e : E)
      → Sound e.qe
      → All (λ (now, ports). AreQueries lt asym chain compare l unset w setup ports.tasks) history
      → (e' : E) × (cycles lt compare sort l w history e ≡ some e') × Sound e'.qe
  unfolding cycles
  cycles-Succeed [] e s queries = (e, refl, s)
  cycles-Succeed ((now, ports) ∷ history) e s (here, rest) =
      let (b, e', h, s') = cycle-Succeeds now (record e { ports = ports }) s here in
      let (e'', h', s'') = cycles-Succeed history e' s' rest in (e'', rw h h', s'')

  pub IsSound-new :
      (states : List RequestState) (task : QeDcTask) (qe_name : ℕ)
      → l ≤ length states
      → Sound (new_engine l w.base.num unset states task qe_name)
  unfolding new_engine
  IsSound-new states task qe_name room =
      sound lt asym chain compare l unset w setup
        (new_engine l w.base.num unset states task qe_name) query_finish refl room
        (inl (states, task, qe_name, refl))

  -- Where `<` orders the distances, distances are symmetric and `std::sort` sorts; on the globals
  -- of a set-up whose queries are of one dimension and together of at most 2 ^ 32 words, and whose
  -- reads leave room in an `int`; with the `int` members that only count taken as unbounded: an
  -- engine that is constructed with a state for each of the `L` initial ids fails in no cycle,
  -- whatever its channels hold in each of them, if only the queries that wait are those of the
  -- query file. It is then at a search as its state says; if it is idle, it is as constructed, or
  -- its result set is in order, has the distances to the query it took last, and every neighbour of
  -- one of its first `L` entries stands among these or is no nearer to that query than the last.
  pub cycles-IsSound :
      (history : List (ℕ × Ports)) (states : List RequestState) (task : QeDcTask) (qe_name : ℕ)
      (ports : Ports) (trace : Trace) (stats : Stats)
      → l ≤ length states
      → All
          (λ (now, waiting). AreQueries lt asym chain compare l unset w setup waiting.tasks)
          history
      → (e : E) × (cycles lt compare sort l w history (record {
        qe = new_engine l w.base.num unset states task qe_name;
        ports = ports;
        trace = trace;
        stats = stats;
      })
          ≡ some e)
        × Sound e.qe
  cycles-IsSound history states task qe_name ports trace stats room =
      cycles-Succeed history _ (IsSound-new states task qe_name room)
