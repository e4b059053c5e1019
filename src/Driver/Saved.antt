-- ===== src/Driver/Saved.antt =====
-- The files of bins/main.cc and bins/simulation.cc, as they are saved and loaded.
use near_mem_nsg.Base.{
  ℕ, ◌*◌, ◌≤◌, ◌<◌, ◌≡◌, subst, true, false, Option, some, List, arith, ltb, ◌==◌, length, All,
  u32_mod,
}
use near_mem_nsg.Files.{Matrix, load_data, save_result}
use near_mem_nsg.Files.RoundTrip.{load_data-save_result}
use near_mem_nsg.Nsg.Graph.{Graph}
use near_mem_nsg.Nsg.File.{save, load}
use near_mem_nsg.Nsg.File.RoundTrip.{blank, sizes_up_to, load-save}
use near_mem_nsg.Nsg.GetData.Answers.{IsGraph}
use near_mem_nsg.Driver.{Inputs}

-- Vectors of `dim` words, in a file that `load_data` can read.
pub record AreVectors (dim : ℕ) (rows : List (List ℕ)) : Type 0 where
  pub small : dim * 4 < u32_mod
  pub even : All (λ r. length r ≡ dim) rows
  pub some_rows : 0 < length rows
  pub few : length rows < u32_mod

-- The files as they are saved, and the two numbers.
abbrev pub saved_inputs : List (List ℕ) → List (List ℕ) → List ℕ → ℕ → ℕ → Inputs
saved_inputs base queries words l k = record {
  base_file = some (save_result base);
  query_file = some (save_result queries);
  nsg_file = some words;
  l = l;
  k = k;
}

-- The vectors as they are loaded.
abbrev pub loaded_as : ℕ → List (List ℕ) → Matrix
loaded_as dim rows = record { rows = rows; num = length rows; dim = dim }

pub not_fewer : (l k : ℕ) → k ≤ l → ltb l k ≡ false
not_fewer l k h = ground arith

pub is_equal : (m n : ℕ) → m ≡ n → (m == n) ≡ true
is_equal m n h = ground arith

saved_once : (o : Option (List ℕ)) (ws words : List ℕ) → o ≡ some ws → o ≡ some words → ws ≡ words
saved_once o ws words q q' = ground (arith, q, q')

pub AreVectors-load :
    (dim : ℕ) (rows : List (List ℕ))
    → AreVectors dim rows
    → load_data (some (save_result rows)) ≡ some (loaded_as dim rows)
AreVectors-load dim rows h = load_data-save_result dim rows h.small h.even h.some_rows h.few

-- The index that is loaded has the sizes of its edge lists besides.
abbrev pub sized : Graph → Graph
sized g = record g { accumulate_nsg_size = sizes_up_to 0 g.final_graph }

pub sized-IsGraph : (g : Graph) → IsGraph g → IsGraph (sized g)
sized-IsGraph g graph = record { lists = graph.lists; edges = graph.edges }

pub load_saved :
    (base : List (List ℕ)) (g : Graph) (words : List ℕ)
    → 0 < length base
    → g.nd ≡ length base
    → IsGraph g
    → All (λ es. length es < u32_mod) g.final_graph
    → save g ≡ some words
    → load (blank (length base)) (some words) ≡ some (sized g)
load_saved base g words pos points graph small saved =
    let (ws, q, loaded) = load-save g (omega arith) graph.lists small in
    subst (λ n. load (blank n) (some words) ≡ some (sized g)) points
      (subst (λ w. load (blank g.nd) (some w) ≡ some (sized g))
        (saved_once (save g) ws words q saved) loaded)
