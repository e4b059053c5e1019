-- ===== src/Nsg/Graph.antt =====
-- `IndexNSG` of deps/nsg/include/efanna2e/index_nsg.h: the members that the search works on, and
-- `GetSizeAndAddr` of deps/nsg/src/index_nsg.cpp.
use near_mem_nsg.Base.{ℕ, ◌*◌, ◌%◌, Option, some, List, ◌>>=◌, length, get_elem?, u64_mod}
use near_mem_nsg.Mapping.{int}

pub record Graph : Type 0 where
  pub nd : ℕ
  pub ep : ℕ
  pub width : ℕ
  pub final_graph : List (List ℕ)
  pub accumulate_nsg_size : List ℕ

-- `sizeof(unsigned)`.
abbrev pub sizeof_unsigned : ℕ
sizeof_unsigned = 4

-- `GetSizeAndAddr`: the size of the edge list of a node, and what is taken for its address.
unfoldable pub get_size_and_addr : Graph → ℕ → Option (ℕ × ℕ)
unfolding int
get_size_and_addr g id = do
  edges ← get_elem? g.final_graph id
  end ← get_elem? g.accumulate_nsg_size id
  size ← int (length edges * sizeof_unsigned)
  some (size, end * sizeof_unsigned % u64_mod)
