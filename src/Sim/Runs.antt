-- ===== src/Sim/Runs.antt =====
-- The main loop of bins/simulation.cc does not fault.
use near_mem_nsg.Base.{
  ℕ, zero, suc, ◌+◌, ◌^◌, ◌≤◌, ◌<◌, ◌≡◌, refl, sym, ap, subst, ◌∙◌, inl, inr, Bool, true, false,
  Option, some, List, [], arith, Bool-cases, length,
}
use near_mem_nsg.Struct.{RequestState, QeDcTask}
use near_mem_nsg.TaskQueue.{make_task_queue}
use near_mem_nsg.Dc
use near_mem_nsg.Mapping.{int}
use near_mem_nsg.Nsg.Pool.{Neighbor}
use near_mem_nsg.Nsg.NewSearch.Start.{IsSort}
use near_mem_nsg.Qe
use near_mem_nsg.Ramulator.{Request, MemoryBase}
use near_mem_nsg.Ramulator.Balance.{IsFaithful}
use near_mem_nsg.Sim.{World, round, all_end, simulate, next_cycle}
use near_mem_nsg.Sim.Setup.{Globals}
use near_mem_nsg.Sim.Start.{start, sent_queries}
use near_mem_nsg.Sim.Index.{global_index, engine_globals}
use near_mem_nsg.Sim.Index.Sound.{IsSetUp, IsSmall}
use near_mem_nsg.Sim.Index.Runs.{IsSound-new}
use near_mem_nsg.Sim.Stages.{
  Runs, controller_cycle-Goes, engine_cycle-Goes, computer_cycle-Goes, memory_turn-Goes,
}

module _ {D M : Type 0} (lt : D → D → Bool) (asym : (a b : D) → lt a b ≡ true → lt b a ≡ false)
    (chain : (a b c : D) → lt a b ≡ false → lt b c ≡ false → lt a c ≡ false) (dset : IsSet D)
    (compare : List ℕ → List ℕ → D) (symmetric : (a b : List ℕ) → compare a b ≡ compare b a)
    (sort : List (Neighbor D) → List (Neighbor D)) (sorts : IsSort lt sort) (l : ℕ)
    (unset : Neighbor D) (w : Globals D) (setup : IsSetUp l unset w) (small : IsSmall w)
    (units : Dc.Config) (mem : MemoryBase M) (inside : M → List Request)
    (ok : IsFaithful mem inside) where
  abbrev Running : Type 0
  Running = World (Option (List (Neighbor D))) (List Bool) M

  abbrev cfg : Qe.Config (Option (List (Neighbor D))) (List Bool)
  cfg = engine_globals lt compare sort l w

  abbrev index : Qe.Index (Option (List (Neighbor D))) (List Bool)
  index = global_index lt compare sort l w

  abbrev Sound : ℕ → Running → Type 0
  Sound =
      Runs lt asym chain dset compare symmetric sort sorts l unset w setup small units mem inside ok

  -- A round, while their number stays within an `int`.
  round-Sound :
      (x : Running)
      → Sound x.combined_cycle x
      → x.combined_cycle + 1 < 2 ^ 31
      → (x' : Running) × (round cfg index units mem x ≡ some x')
        × Sound x'.combined_cycle x'
        × (x'.combined_cycle ≡ x.combined_cycle + 1)
  unfolding round int
  round-Sound x r bound =
      let n = x.combined_cycle in
      let (x1, h1, r1, c1) =
        controller_cycle-Goes lt asym chain dset compare symmetric sort sorts l unset w setup small
          units mem inside ok n (record x { combined_cycle = n + 1 }) r in
      let (x2, h2, r2, c2) =
        engine_cycle-Goes lt asym chain dset compare symmetric sort sorts l unset w setup small
          units mem inside ok n (next_cycle cfg index units mem x1) r1 in
      let (x3, h3, r3, c3) =
        computer_cycle-Goes lt asym chain dset compare symmetric sort sorts l unset w setup small
          units mem inside ok n (next_cycle cfg index units mem x2) r2 in
      let (x4, h4, r4, c4) =
        memory_turn-Goes lt asym chain dset compare symmetric sort sorts l unset w setup small units
          mem inside ok n (next_cycle cfg index units mem x3) (omega arith) r3 in
      let turn : x4.combined_cycle ≡ n + 1 = c4 ∙ c3 ∙ c2 ∙ c1 in
      (x4, ground (arith, h1, h2, h3, h4), subst (λ k. Sound k x4) (sym turn) r4, turn)

  -- What comes after a round, by the test of the loop.
  abbrev after : ℕ → Running → Bool → Option (Bool × Running)
  after n x true = some (true, x)
  after n x false = simulate cfg index units mem n x

  simulate-round :
      (n : ℕ) (x x' : Running)
      → round cfg index units mem x ≡ some x'
      → simulate cfg index units mem (suc n) x ≡ after n x' (all_end cfg index units mem x')
  unfolding simulate
  simulate-round n x x' h = rw h (by_test (all_end cfg index units mem x'))
    where
      by_test :
          (b : Bool)
          → elim b [ true ↦ some (true, x') | false ↦ simulate cfg index units mem n x' ]
            ≡ after n x' b
      by_test true = refl
      by_test false = refl

  rounds-Sound :
      (n : ℕ) (x : Running)
      → Sound x.combined_cycle x
      → x.combined_cycle + n < 2 ^ 31
      → (ended : Bool) × (x' : Running) × (simulate cfg index units mem n x ≡ some (ended, x'))
        × Sound x'.combined_cycle x'
        × (x'.combined_cycle ≤ x.combined_cycle + n)
  unfolding simulate
  rounds-Sound zero x r bound = (false, x, refl, r, omega arith)
  rounds-Sound (suc n) x r bound =
      let (x', h, r', turn) = round-Sound x r (omega arith) in
      elim (Bool-cases (all_end cfg index units mem x')) [
        | inl ends ↦
            (true, x', simulate-round n x x' h ∙ ap (after n x') ends, r', omega (arith, turn))
        | inr on ↦
            let (ended, x'', h', r'', less) = rounds-Sound n x' r' (omega (arith, turn)) in
            (
              ended,
              x'',
              simulate-round n x x' h ∙ ap (after n x') on ∙ h',
              r'',
              omega (arith, turn, less),
            )
      ]

  started :
      (states : List RequestState) (task : QeDcTask) (trace : Qe.Trace) (stats : Qe.Stats) (m : M)
      → l ≤ length states
      → sent_queries ≤ length w.query.rows
      → inside m ≡ []
      → Sound 0 (start l unset w states task trace stats m)
  unfolding start make_task_queue
  started states task trace stats m room queries nothing = record {
    engine =
        IsSound-new lt asym chain dset compare symmetric sort sorts l unset w setup small states
          task 0 room;
    waiting = tt;
    known = queries;
    word = omega arith;
    held = sym (ap length nothing);
    few = omega (arith, ap length nothing);
  }

  -- Where `<` orders the distances, distances are symmetric and `std::sort` sorts; on the globals
  -- of a set-up with at least 1000 queries, all of one dimension and together of at most 2 ^ 32
  -- words, whose reads leave room in an `int`; with the `int` members that only count taken as
  -- unbounded; over a memory that calls back exactly what it took and holds nothing at first: the
  -- simulation, as it is constructed with a state for each of the `L` initial ids, fails in none of
  -- its first 2 ^ 31 - 1 rounds. Its engine is then at a search as its state says; if it is idle,
  -- it is as constructed, or its result set is in order, has the distances to the query it took
  -- last, and every neighbour of one of its first `L` entries stands among these or is no nearer to
  -- that query than the last. The queries that wait are of the query file, and the count of
  -- outgoing requests is the number in the memory.
  pub simulate-IsRunning :
      (n : ℕ) (states : List RequestState) (task : QeDcTask) (trace : Qe.Trace) (stats : Qe.Stats)
      (m : M)
      → n < 2 ^ 31
      → l ≤ length states
      → sent_queries ≤ length w.query.rows
      → inside m ≡ []
      → (ended : Bool) × (x : Running) × (simulate cfg index units mem n
            (start l unset w states task trace stats m)
          ≡ some (ended, x))
        × Sound x.combined_cycle x
  unfolding start
  simulate-IsRunning n states task trace stats m bound room queries nothing =
      let (ended, x, h, r, less) =
        rounds-Sound n (start l unset w states task trace stats m)
          (started states task trace stats m room queries nothing) (omega arith) in
      (ended, x, h, r)
