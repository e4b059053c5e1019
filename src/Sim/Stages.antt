-- ===== src/Sim/Stages.antt =====
-- A round of the main loop of bins/simulation.cc, component by component.
use near_mem_nsg.Base.{
  ℕ, ◌+◌, ◌%◌, ◌^◌, ◌≤◌, ◌<◌, ◌≡◌, ◌≢◌, inl, inr, Bool, true, false, Option, none, some, List,
  arith, ◌==◌, Bool-cases, Option-cases, length, u32_mod,
}
use near_mem_nsg.Struct.{NsgTask}
use near_mem_nsg.TaskQueue.{Channel}
use near_mem_nsg.Component.{cycle}
use near_mem_nsg.Controller.{Controller}
use near_mem_nsg.Controller.Dispatch.{do_cycle_cases}
use near_mem_nsg.Dc
use near_mem_nsg.Dc.Task.{do_cycle_total}
use near_mem_nsg.Nsg.Pool.{Neighbor}
use near_mem_nsg.Nsg.NewSearch.Start.{IsSort}
use near_mem_nsg.Qe
use near_mem_nsg.Qe.Discipline.{do_cycle-AtMostOne}
use near_mem_nsg.Ramulator
use near_mem_nsg.Ramulator.{Request, MemoryBase, Wrapper}
use near_mem_nsg.Ramulator.Balance.{IsFaithful}
use near_mem_nsg.Ramulator.Outgoing.{do_cycle-held}
use near_mem_nsg.Sim.{
  World, controller_cycle, engine_cycle, computer_cycle, memory_cycle, memory_turn,
}
use near_mem_nsg.Sim.Setup.{Globals}
use near_mem_nsg.Sim.Index.{global_index, engine_globals}
use near_mem_nsg.Sim.Index.Sound.{IsSetUp, IsSmall, IsSound}
use near_mem_nsg.Sim.Index.Runs.{cycle-Succeeds}
use near_mem_nsg.Sim.Waiting.{AreWithin, push-AreWithin, Move-AreWithin}

module _ {D M : Type 0} (lt : D → D → Bool) (asym : (a b : D) → lt a b ≡ true → lt b a ≡ false)
    (chain : (a b c : D) → lt a b ≡ false → lt b c ≡ false → lt a c ≡ false) (dset : IsSet D)
    (compare : List ℕ → List ℕ → D) (symmetric : (a b : List ℕ) → compare a b ≡ compare b a)
    (sort : List (Neighbor D) → List (Neighbor D)) (sorts : IsSort lt sort) (l : ℕ)
    (unset : Neighbor D) (w : Globals D) (setup : IsSetUp l unset w) (small : IsSmall w)
    (units : Dc.Config) (mem : MemoryBase M) (inside : M → List Request)
    (ok : IsFaithful mem inside) where
  abbrev Q : Type 0
  Q = Qe.QueryEngine (Option (List (Neighbor D))) (List Bool)

  abbrev pub Running : Type 0
  Running = World (Option (List (Neighbor D))) (List Bool) M

  abbrev cfg : Qe.Config (Option (List (Neighbor D))) (List Bool)
  cfg = engine_globals lt compare sort l w

  abbrev index : Qe.Index (Option (List (Neighbor D))) (List Bool)
  index = global_index lt compare sort l w

  -- A sound engine; queries of the query file, those that wait and those still to be sent; and a
  -- count of outgoing requests that is right, with at most one request for each round.
  pub record IsRunning (q : Q) (tasks : Channel NsgTask) (c : Controller) (m : Wrapper M)
      (rounds : ℕ) : Type 0 where
    pub engine : IsSound lt asym chain compare l unset w setup q
    pub waiting : AreWithin (length w.query.rows) tasks
    pub known : c.query_num ≤ length w.query.rows
    pub word : c.query_num < u32_mod
    pub held : m.outgoing_reqs ≡ length (inside m.mem)
    pub few : length (inside m.mem) ≤ rounds

  abbrev pub Runs : ℕ → Running → Type 0
  Runs n x = IsRunning x.engine.qe x.engine.ports.tasks x.controller x.memory n

  abbrev pub Goes : ℕ → ℕ → Option Running → Type 0
  Goes n turn o = (x' : Running) × (o ≡ some x') × Runs n x' × (x'.combined_cycle ≡ turn)

  -- A part of the round, by what it leaves of the state that matters.
  Goes-by :
      (o : Option Running) (q : Q) (tasks : Channel NsgTask) (c : Controller) (m : Wrapper M)
      (n turn : ℕ)
      → o ≢ none
      → ((x' : Running)
          → o ≡ some x'
          → (x'.engine.qe ≡ q)
            × (x'.engine.ports.tasks ≡ tasks)
            × (x'.controller ≡ c)
            × (x'.memory ≡ m)
            × (x'.combined_cycle ≡ turn))
      → IsRunning q tasks c m n
      → Goes n turn o
  Goes-by o q tasks c m n turn total same r = elim (Option-cases o) [
    | inl fault ↦ absurd (total fault)
    | inr (x', h) ↦ let (e1, e2, e3, e4, e5) = same x' h in (x', h, rw (e1, e2, e3, e4) r, e5)
  ]

  pub controller_cycle-Goes :
      (n : ℕ) (x : Running)
      → Runs n x
      → Goes n x.combined_cycle (controller_cycle cfg index units mem x)
  unfolding controller_cycle cycle
  controller_cycle-Goes n x r = elim (do_cycle_cases x.controller x.engine.ports.tasks r.word) [
    | inl still ↦
        Goes-by (controller_cycle cfg index units mem x) x.engine.qe x.engine.ports.tasks
          x.controller x.memory n x.combined_cycle (ground (arith, still))
          (λ x' k. (
            ground (arith, still),
            ground (arith, still),
            ground (arith, still),
            ground (arith, still),
            ground (arith, still),
          ))
          r
    | inr (tasks, sent, next, h) ↦
        Goes-by (controller_cycle cfg index units mem x) x.engine.qe tasks
          (record x.controller { current_query_id = x.controller.current_query_id + 1 }) x.memory n
          x.combined_cycle (ground (arith, h))
          (λ x' k. (
            ground (arith, h),
            ground (arith, h),
            ground (arith, h),
            ground (arith, h),
            ground (arith, h),
          ))
          (record {
            engine = r.engine;
            waiting =
                push-AreWithin (length w.query.rows)
                  (record { query_id = x.controller.current_query_id }) x.engine.ports.tasks tasks
                  sent (omega (arith, next, r.known)) r.waiting;
            known = r.known;
            word = r.word;
            held = r.held;
            few = r.few;
          })
  ]

  pub engine_cycle-Goes :
      (n : ℕ) (x : Running)
      → Runs n x
      → Goes n x.combined_cycle (engine_cycle cfg index units mem x)
  unfolding engine_cycle cycle
  engine_cycle-Goes n x r =
      let (b, e', h, s) =
        cycle-Succeeds lt asym chain dset compare symmetric sort sorts l unset w setup small
          x.current_cycle x.engine r.engine r.waiting in
      let waiting =
        Move-AreWithin (length w.query.rows) x.engine.qe.qe_name x.engine.qe.query_id x.engine.ports
          e'.ports (do_cycle-AtMostOne cfg index x.current_cycle x.engine b e' h) r.waiting in
      Goes-by (engine_cycle cfg index units mem x) e'.qe e'.ports.tasks x.controller x.memory n
        x.combined_cycle (ground (arith, h))
        (λ x' k. (
          ground (arith, h),
          ground (arith, h),
          ground (arith, h),
          ground (arith, h),
          ground (arith, h),
        ))
        (record {
          engine = s;
          waiting = waiting;
          known = r.known;
          word = r.word;
          held = r.held;
          few = r.few;
        })

  pub computer_cycle-Goes :
      (n : ℕ) (x : Running)
      → Runs n x
      → Goes n x.combined_cycle (computer_cycle cfg index units mem x)
  unfolding computer_cycle cycle
  computer_cycle-Goes n x r = elim (Option-cases (Dc.do_cycle units computer)) [
    | inl fault ↦ absurd (do_cycle_total units computer fault)
    | inr ((b, s), h) ↦
        Goes-by (computer_cycle cfg index units mem x) x.engine.qe x.engine.ports.tasks x.controller
          x.memory n x.combined_cycle (ground (arith, h))
          (λ x' k. (
            ground (arith, h),
            ground (arith, h),
            ground (arith, h),
            ground (arith, h),
            ground (arith, h),
          ))
          r
  ]
    where
      computer : Dc.State
      computer = record {
        dc = x.computer;
        distance_receiver = x.engine.ports.distance;
        return_distance_sender = x.engine.ports.return_distance;
      }

  -- In its round, the memory may take one request more.
  pub memory_turn-Goes :
      (n : ℕ) (x : Running)
      → n < 2 ^ 31
      → Runs n x
      → Goes (n + 1) x.combined_cycle (memory_turn cfg index units mem x)
  unfolding memory_turn memory_cycle cycle
  memory_turn-Goes n x bound r = elim (Bool-cases (x.combined_cycle % 2 == 0)) [
    | inl even ↦
        let (b, s, h, held, more) =
          do_cycle-held mem inside ok memory (r.held, omega (arith, r.few)) in
        Goes-by (memory_turn cfg index units mem x) x.engine.qe x.engine.ports.tasks x.controller
          s.wrapper (n + 1) x.combined_cycle (ground (arith, h))
          (λ x' k. (
            ground (arith, h),
            ground (arith, h),
            ground (arith, h),
            ground (arith, h),
            ground (arith, h),
          ))
          (record {
            engine = r.engine;
            waiting = r.waiting;
            known = r.known;
            word = r.word;
            held = held;
            few = omega (arith, more, r.few);
          })
    | inr odd ↦
        Goes-by (memory_turn cfg index units mem x) x.engine.qe x.engine.ports.tasks x.controller
          x.memory (n + 1) x.combined_cycle (ground arith)
          (λ x' k. (ground arith, ground arith, ground arith, ground arith, ground arith))
          (record {
            engine = r.engine;
            waiting = r.waiting;
            known = r.known;
            word = r.word;
            held = r.held;
            few = omega (arith, r.few);
          })
  ]
    where
      memory : Ramulator.State M
      memory = record {
        wrapper = x.memory;
        in_queue = x.engine.ports.mem;
        out_queue = x.engine.ports.mem_ret;
      }
