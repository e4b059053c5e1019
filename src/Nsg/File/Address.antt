-- ===== src/Nsg/File/Address.antt =====
-- What `GetSizeAndAddr` of deps/nsg/src/index_nsg.cpp takes for the address of an edge list.
use near_mem_nsg.Base.{
  ℕ, zero, suc, ◌+◌, ◌*◌, ◌%◌, ◌^◌, ◌≤◌, ◌<◌, ◌≡◌, refl, true, some, List, [], ◌∷◌, arith, ltb,
  lt→ltb, length, get_elem?, u32_mod, u64_mod,
}
use near_mem_nsg.Mapping.{int}
use near_mem_nsg.Nsg.Graph.{Graph, get_size_and_addr}
use near_mem_nsg.Nsg.File.RoundTrip.{sizes_up_to}

-- The bytes of the edge lists before that of a node.
abbrev pub bytes_before : ℕ → List (List ℕ) → ℕ
bytes_before id [] = 0
bytes_before zero (es ∷ ess) = 0
bytes_before (suc id) (es ∷ ess) = length es * 4 + bytes_before id ess

-- The number of edges.
abbrev pub edges_of : List (List ℕ) → ℕ
edges_of [] = 0
edges_of (es ∷ ess) = length es + edges_of ess

sizes_lem :
    (cc id : ℕ) (ess : List (List ℕ)) (es : List ℕ)
    → cc + edges_of ess < 2 ^ 32
    → get_elem? ess id ≡ some es
    → (end : ℕ) × (get_elem? (sizes_up_to cc ess) id ≡ some end)
      × (end * 4 ≡ cc * 4 + bytes_before id ess + length es * 4)
      × (end ≤ cc + edges_of ess)
      × (length es ≤ edges_of ess)
sizes_lem cc id [] es h e = absurd (ground arith)
sizes_lem cc zero (x ∷ ess) es h e =
    ((cc + length x) % u32_mod, refl, ground arith, ground arith, ground arith)
sizes_lem cc (suc id) (x ∷ ess) es h e =
    let whole : (cc + length x) % u32_mod ≡ cc + length x = omega arith in
    let (end, q, r, b, c) = sizes_lem ((cc + length x) % u32_mod) id ess es (omega arith) e in
    (end, q, omega arith, omega arith, omega arith)

-- On a graph as it is loaded, with fewer than 2 ^ 29 edges, `GetSizeAndAddr` gives the size of the
-- edge list of a node, and as its address not where the list begins, but where it ends.
pub get_size_and_addr_end :
    (g : Graph) (id : ℕ) (es : List ℕ)
    → g.accumulate_nsg_size ≡ sizes_up_to 0 g.final_graph
    → edges_of g.final_graph < 2 ^ 29
    → get_elem? g.final_graph id ≡ some es
    → get_size_and_addr g id ≡ some (length es * 4, bytes_before id g.final_graph + length es * 4)
unfolding get_size_and_addr int
get_size_and_addr_end g id es loaded few e =
    let (end, q, r, b, c) = sizes_lem 0 id g.final_graph es (omega arith) e in
    let at : get_elem? g.accumulate_nsg_size id ≡ some end = rw loaded q in
    let low : ltb (length es * 4) (2 ^ 31) ≡ true = lt→ltb (length es * 4) (2 ^ 31) (omega arith) in
    let fits : end * 4 % u64_mod ≡ bytes_before id g.final_graph + length es * 4 = omega arith in
    rw (e, at, low, fits) refl
