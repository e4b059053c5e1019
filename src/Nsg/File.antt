-- ===== src/Nsg/File.antt =====
-- `Save` and `Load` of deps/nsg/src/index_nsg.cpp. A file is a list of 32-bit words, which is all that
-- the two functions read and write; an incomplete word at the end is no word.
pub mod RoundTrip
pub mod Address
use near_mem_nsg.Base.{
  ℕ, zero, suc, ◌+◌, ◌%◌, Option, none, some, List, [], ◌∷◌, ◌++◌, ◌==◌, if◌then◌else◌, length,
  take, drop, u32_mod,
}
use near_mem_nsg.Nsg.Graph.{Graph}

-- The edge lists, each after its length.
save_lists : List (List ℕ) → List ℕ
save_lists [] = []
save_lists (es ∷ ess) = let gk = length es % u32_mod in gk ∷ (take gk es ++ save_lists ess)

-- `Save`, with its assertion.
unfoldable pub save : Graph → Option (List ℕ)
unfolding save_lists
save g =
    if length g.final_graph == g.nd then some (g.width ∷ g.ep ∷ save_lists g.final_graph) else none

-- A vector of `n` entries into which as many words are read as there are.
read_words : ℕ → List ℕ → List ℕ
read_words zero ws = []
read_words (suc n) [] = 0 ∷ read_words n []
read_words (suc n) (w ∷ ws) = w ∷ read_words n ws

-- `while (!in.eof())`, on fuel: the edge lists and, for each, the number of edges so far. A read past
-- the end of the file ends the loop.
load_lists : ℕ → ℕ → List ℕ → List (List ℕ) × List ℕ
unfolding read_words
load_lists zero cc ws = ([], [])
load_lists (suc fuel) cc [] = ([], [])
load_lists (suc fuel) cc (k ∷ ws) =
    let cc' = (cc + k) % u32_mod in
    let rest = load_lists fuel cc' (drop k ws) in (read_words k ws ∷ rest.0, cc' ∷ rest.1)

-- The words after the first two.
load_rest : Graph → List ℕ → Graph
unfolding load_lists
load_rest g ws =
    let lists = load_lists (length ws) 0 ws in
    record g {
      final_graph = g.final_graph ++ lists.0;
      accumulate_nsg_size = g.accumulate_nsg_size ++ lists.1;
    }

-- `Load`: a file that cannot be opened is read without an end, and a number of nodes that is 0 faults
-- when the mean degree is computed.
unfoldable pub load : Graph → Option (List ℕ) → Option Graph
unfolding load_rest
load g none = none
load g (some ws) = if g.nd == 0 then none else some (read_header g ws)
  where
    read_header : Graph → List ℕ → Graph
    read_header g [] = g
    read_header g (w ∷ []) = record g { width = w }
    read_header g (w ∷ e ∷ ws) = load_rest (record g { width = w; ep = e }) ws
