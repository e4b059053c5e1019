-- ===== src/Nsg/File/RoundTrip.antt =====
-- A graph that is saved is loaded again.
use near_mem_nsg.Base.{
  ℕ, zero, suc, ◌+◌, ◌%◌, ◌≤◌, ◌<◌, ◌≡◌, refl, sym, ap, some, List, [], ◌∷◌, ◌++◌, arith, length,
  take, All, length-append, take_whole, drop-append, u32_mod,
}
use near_mem_nsg.Nsg.Graph.{Graph}
use near_mem_nsg.Nsg.File.{save_lists, read_words, load_lists, load_rest, save, load}

-- The number of edges in the lists up to each, as an `unsigned`.
abbrev pub sizes_up_to : ℕ → List (List ℕ) → List ℕ
sizes_up_to cc [] = []
sizes_up_to cc (es ∷ ess) =
    (cc + length es) % u32_mod ∷ sizes_up_to ((cc + length es) % u32_mod) ess

read_words-append : (xs ys : List ℕ) → read_words (length xs) (xs ++ ys) ≡ xs
unfolding read_words
read_words-append [] ys = refl
read_words-append (x ∷ xs) ys = ap (λ zs. x ∷ zs) (read_words-append xs ys)

load-save_lists :
    (fuel cc : ℕ) (ess : List (List ℕ))
    → All (λ es. length es < u32_mod) ess
    → length (save_lists ess) ≤ fuel
    → load_lists fuel cc (save_lists ess) ≡ (ess, sizes_up_to cc ess)
unfolding load_lists save_lists
load-save_lists zero cc [] small enough = refl
load-save_lists zero cc (es ∷ ess) small enough = absurd (omega arith)
load-save_lists (suc fuel) cc [] small enough = refl
load-save_lists (suc fuel) cc (es ∷ ess) small enough =
    let whole : length es % u32_mod ≡ length es = omega (arith, small.0) in
    let all : take (length es % u32_mod) es ≡ es =
      take_whole es (length es % u32_mod) (sym whole) in
    let shorter : length (save_lists ess) ≤ fuel = omega (
      arith,
      enough,
      length-append (take (length es % u32_mod) es) (save_lists ess),
      ap length all,
    ) in
    rw
      (
        all,
        whole,
        read_words-append es (save_lists ess),
        drop-append es (save_lists ess) (length es) refl,
        load-save_lists fuel ((cc + length es) % u32_mod) ess small.1 shorter,
      )
      refl

-- An empty index.
abbrev pub blank : ℕ → Graph
blank nd = record { nd = nd; ep = 0; width = 0; final_graph = []; accumulate_nsg_size = [] }

-- A graph with at least one node and an edge list for each, shorter than 2 ^ 32, is saved, and an
-- empty index for as many nodes loads it again, with the number of edges up to each list.
pub load-save :
    (g : Graph)
    → 0 < g.nd
    → length g.final_graph ≡ g.nd
    → All (λ es. length es < u32_mod) g.final_graph
    → (ws : List ℕ) × (save g ≡ some ws)
      × (load (blank g.nd) (some ws)
          ≡ some (record g { accumulate_nsg_size = sizes_up_to 0 g.final_graph }))
unfolding save load load_rest
load-save g some_nodes fits small =
    let lists =
      load-save_lists (length (save_lists g.final_graph)) 0 g.final_graph small (omega arith) in
    (g.width ∷ g.ep ∷ save_lists g.final_graph, ground arith, rw lists (ground arith))
