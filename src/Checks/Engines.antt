-- ===== src/Checks/Engines.antt =====
-- Examples for a query engine over the index and the globals of bins/simulation.cc.
use near_mem_nsg.Base.{
  ℕ, ◌≡◌, refl, Bool, Option, some, List, [], ◌∷◌, arith, ltb, replicate, length-replicate,
}
use near_mem_nsg.Struct.{not_send}
use near_mem_nsg.Nsg.Pool.{Neighbor}
use near_mem_nsg.Qe.{Ports, Engine}
use near_mem_nsg.Ramulator.{Request}
use near_mem_nsg.Sim.{World, simulate}
use near_mem_nsg.Sim.Start.{start}
use near_mem_nsg.Sim.Stages.{Runs}
use near_mem_nsg.Sim.Runs.{simulate-IsRunning}
use near_mem_nsg.Sim.Setup.{Globals}
use near_mem_nsg.Sim.Index.{global_index, engine_globals, cycles, new_engine}
use near_mem_nsg.Sim.Index.Sound.{IsSetUp, IsSmall, IsSound}
use near_mem_nsg.Sim.Index.Runs.{cycles-IsSound}
use near_mem_nsg.Checks.Sorting.{sort, sort-IsSort}
use near_mem_nsg.Checks.Searches.{
  ltb-asym, ltb-chain, numbers-IsSet, graph, graph-IsGraph, gathered, gathered-IsPrepared,
}
use near_mem_nsg.Checks.Reads.{memory, held, memory-IsFaithful}
use near_mem_nsg.Checks.Driving.{
  vectors, queries, queries-length, queries-AreVectors, distance, unset,
}
use near_mem_nsg.Checks.Simulation.{units, no_entries, no_task, stats, trace}

abbrev globals : Globals ℕ
globals = record {
  global_sizeof = 4;
  base = record { rows = vectors; num = 4; dim = 1 };
  query = record { rows = vectors; num = 4; dim = 1 };
  index = graph;
  global_retset = replicate 4 unset;
  global_init_ids = gathered.init_ids;
  global_flags = gathered.flags;
}

globals-IsSetUp : IsSetUp 3 unset globals
globals-IsSetUp = record {
  pos = omega arith;
  graph = graph-IsGraph;
  vectors = omega arith;
  node = omega arith;
  even = (refl, (refl, (refl, (refl, tt))));
  range = omega arith;
  retset = refl;
  ready = gathered-IsPrepared;
}

globals-IsSmall : IsSmall globals
globals-IsSmall = record {
  sizes = refl;
  lists = (omega arith, (omega arith, (omega arith, (omega arith, tt))));
  reads = (omega arith, (omega arith, (omega arith, (omega arith, tt))));
}

distance_symmetric : (a b : List ℕ) → distance a b ≡ distance b a
distance_symmetric (a ∷ xs) (b ∷ ys) = omega arith
distance_symmetric (a ∷ xs) [] = refl
distance_symmetric [] (b ∷ ys) = refl
distance_symmetric [] [] = refl

-- Two queries wait in every cycle, and the other channels are empty.
abbrev ports : Ports
ports = record {
  tasks = record {
    task_queue = record { queue = record { query_id = 2 } ∷ record { query_id = 3 } ∷ [] };
    capacity = 4;
  };
  distance = no_entries;
  return_distance = no_entries;
  mem = no_entries;
  mem_ret = no_entries;
}

abbrev engine : Engine (Option (List (Neighbor ℕ))) (List Bool)
engine = record {
  qe = new_engine 3 4 unset (replicate 200 not_send) no_task 0;
  ports = ports;
  trace = trace;
  stats = stats;
}

abbrev history : List (ℕ × Ports)
history = (1, ports) ∷ (5, ports) ∷ (9, ports) ∷ []

cycles-IsSound_example :
    (e : Engine (Option (List (Neighbor ℕ))) (List Bool)) × (cycles ltb distance sort 3 globals
        history engine
      ≡ some e)
    × IsSound ltb ltb-asym ltb-chain distance 3 unset globals globals-IsSetUp e.qe
cycles-IsSound_example =
    cycles-IsSound ltb ltb-asym ltb-chain numbers-IsSet distance distance_symmetric sort sort-IsSort
      3 unset globals globals-IsSetUp globals-IsSmall history (replicate 200 not_send) no_task 0
      ports trace stats (omega (arith, length-replicate 200 not_send))
      (
        (omega arith, (omega arith, tt)),
        ((omega arith, (omega arith, tt)), ((omega arith, (omega arith, tt)), tt)),
      )

-- The same with a thousand queries.
abbrev many : Globals ℕ
many = record globals { query = record { rows = queries; num = 1000; dim = 1 } }

many-IsSetUp : IsSetUp 3 unset many
many-IsSetUp = record {
  pos = omega arith;
  graph = graph-IsGraph;
  vectors = omega arith;
  node = omega arith;
  even = queries-AreVectors.even;
  range = omega (arith, queries-length);
  retset = refl;
  ready = gathered-IsPrepared;
}

many-IsSmall : IsSmall many
many-IsSmall = record { sizes = refl; lists = globals-IsSmall.lists; reads = globals-IsSmall.reads }

simulate-IsRunning_example :
    (ended : Bool) × (x : World (Option (List (Neighbor ℕ))) (List Bool) (List Request)) × (simulate
        (engine_globals ltb distance sort 3 many)
        (global_index ltb distance sort 3 many)
        units
        memory
        100
        (start 3 unset many (replicate 200 not_send) no_task trace stats [])
      ≡ some (ended, x))
    × Runs ltb ltb-asym ltb-chain numbers-IsSet distance distance_symmetric sort sort-IsSort 3 unset
        many many-IsSetUp many-IsSmall units memory held memory-IsFaithful x.combined_cycle x
simulate-IsRunning_example =
    simulate-IsRunning ltb ltb-asym ltb-chain numbers-IsSet distance distance_symmetric sort
      sort-IsSort 3 unset many many-IsSetUp many-IsSmall units memory held memory-IsFaithful 100
      (replicate 200 not_send) no_task trace stats [] (omega arith)
      (omega (arith, length-replicate 200 not_send)) (omega (arith, queries-length)) refl
