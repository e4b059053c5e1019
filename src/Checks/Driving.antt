-- ===== src/Checks/Driving.antt =====
-- Examples for the files and for bins/main.cc.
use near_mem_nsg.Base.{
  ℕ, zero, suc, ◌+◌, ◌-◌, ◌≡◌, refl, false, some, List, [], ◌∷◌, arith, ltb, length, replicate, All,
  length-replicate,
}
use near_mem_nsg.Files.{load_data, save_result}
use near_mem_nsg.Files.RoundTrip.{load_data-save_result}
use near_mem_nsg.Nsg.Pool.{Neighbor}
use near_mem_nsg.Nsg.File.{save}
use near_mem_nsg.Nsg.PreProcess.{Gather}
use near_mem_nsg.Driver.{query_num, main}
use near_mem_nsg.Driver.Completes.{AreAnswers, main_completes}
use near_mem_nsg.Driver.Saved.{AreVectors}
use near_mem_nsg.Nsg.PreProcess.Prepared.{IsPrepared}
use near_mem_nsg.Sim.Setup.{float32, Globals, sizeof_type, set_up}
use near_mem_nsg.Sim.Setup.Ready.{IsSearchable, set_up_ready}
use near_mem_nsg.Checks.Sorting.{sort, sort-IsSort}
use near_mem_nsg.Checks.Searches.{ltb-asym, numbers-IsSet, graph, graph-IsGraph, one_two, drawn}

abbrev pub vectors : List (List ℕ)
vectors = (10 ∷ []) ∷ (20 ∷ []) ∷ (30 ∷ []) ∷ (40 ∷ []) ∷ []

vectors-AreVectors : AreVectors 1 vectors
vectors-AreVectors = record {
  small = omega arith;
  even = (refl, (refl, (refl, (refl, tt))));
  some_rows = omega arith;
  few = omega arith;
}

load_data-save_result_example :
    load_data (some (save_result vectors)) ≡ some (record { rows = vectors; num = 4; dim = 1 })
load_data-save_result_example =
    load_data-save_result 1 vectors (omega arith) (refl, (refl, (refl, (refl, tt)))) (omega arith)
      (omega arith)

-- The distance of two vectors of one word.
abbrev pub distance : List ℕ → List ℕ → ℕ
distance (a ∷ xs) (b ∷ ys) = (a - b) + (b - a)
distance [] ys = 0
distance (a ∷ xs) [] = 0

abbrev pub unset : Neighbor ℕ
unset = record { id = 0; distance = 0; flag = false }

abbrev pub query : List ℕ
query = 32 ∷ []

all_even : (n : ℕ) → All (λ r. length r ≡ 1) (replicate n query)
all_even zero = tt
all_even (suc n) = (refl, all_even n)

-- The same query a thousand times.
abbrev pub queries : List (List ℕ)
queries = replicate 1000 query

pub queries-length : length queries ≡ 1000
queries-length = length-replicate 1000 query

pub queries-AreVectors : AreVectors 1 queries
queries-AreVectors = record {
  small = omega arith;
  even = all_even 1000;
  some_rows = omega (arith, queries-length);
  few = omega (arith, queries-length);
}

-- The index file.
abbrev words : List ℕ
words = 2 ∷ 0 ∷ 2 ∷ 1 ∷ 2 ∷ 2 ∷ 2 ∷ 3 ∷ 2 ∷ 3 ∷ 0 ∷ 1 ∷ 0 ∷ []

words-save : save graph ≡ some words
unfolding save
words-save = refl

main_completes_example :
    (s : Gather) × (res : List (List ℕ)) × (main ltb distance sort unset 40
        (5 ∷ 4 ∷ 11 ∷ 6 ∷ [])
        (record {
          base_file = some (save_result vectors);
          query_file = some (save_result queries);
          nsg_file = some words;
          l = 3;
          k = 2;
        })
      ≡ some (save_result res))
    × AreAnswers ltb ltb-asym distance sort sort-IsSort unset 40 numbers-IsSet vectors queries 3 2
        graph s query_num 0 res
main_completes_example =
    main_completes ltb ltb-asym distance sort sort-IsSort unset 40 numbers-IsSet vectors queries 1 3
      2 graph (1 ∷ 2 ∷ []) (5 ∷ 4 ∷ 11 ∷ 6 ∷ []) words vectors-AreVectors queries-AreVectors
      (omega (arith, queries-length)) (omega arith) refl graph-IsGraph
      (omega arith, (omega arith, (omega arith, (omega arith, tt)))) words-save refl one_two
      (omega arith) (omega arith) drawn (omega arith) (omega arith) (omega arith)

float32-sized : sizeof_type float32 ≡ some 4
unfolding sizeof_type
float32-sized = refl

set_up_ready_example :
    (w : Globals ℕ) × (set_up unset float32 (5 ∷ 4 ∷ 11 ∷ 6 ∷ []) (record {
      base_file = some (save_result vectors);
      query_file = some (save_result vectors);
      nsg_file = some words;
      l = 3;
      k = 2;
    })
      ≡ some w)
    × IsPrepared 3 4 (record { init_ids = w.global_init_ids; tmp_l = 3; flags = w.global_flags })
    × IsSearchable ltb ltb-asym distance sort sort-IsSort unset 3 40 w query
set_up_ready_example =
    set_up_ready ltb ltb-asym distance sort sort-IsSort unset vectors vectors 1 3 2 4 40 float32
      graph (1 ∷ 2 ∷ []) (5 ∷ 4 ∷ 11 ∷ 6 ∷ []) words query float32-sized vectors-AreVectors
      vectors-AreVectors refl graph-IsGraph
      (omega arith, (omega arith, (omega arith, (omega arith, tt)))) words-save refl one_two
      (omega arith) (omega arith) drawn (omega arith) (omega arith) (omega arith)
