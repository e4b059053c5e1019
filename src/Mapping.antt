-- ===== src/Mapping.antt =====
-- `Query_Engine::address_mapping` of src/qe.cc: the cache lines of an edge list or of a vector.
-- Sizes are `int`s: a value of 2 ^ 31 or more, an overflow in the source, is `none`. The loop leaves
-- when its size is no longer positive, and reads it no more, so that a size which would go below 0
-- may stop at 0.
pub mod Lines
pub mod Cover
pub mod Fits
use near_mem_nsg.Base.{
  ℕ, zero, suc, ◌+◌, ◌-◌, ◌*◌, ◌%◌, ◌^◌, Bool, true, false, Option, none, some, List, [], ◌∷◌, ◌++◌,
  ltb, if◌then◌else◌, ◌>>=◌, u64_mod, add64,
}

-- `CACHELINE_SIZE` of src/struct.h.
abbrev pub cacheline_size : ℕ
cacheline_size = 64

-- The globals of bins/simulation.cc that the mapping reads.
pub record Layout : Type 0 where
  pub points_num : ℕ
  pub dim : ℕ
  pub global_sizeof : ℕ

-- `GetSizeAndAddr` of the index: for each node the size in bytes and the address of its edge list.
pub record EdgeTable : Type 0 where
  pub edge_size : ℕ → ℕ
  pub edge_addr : ℕ → ℕ

-- An `int` that holds a number.
unfoldable pub int : ℕ → Option ℕ
int n = if ltb n (2 ^ 31) then some n else none

-- The `while` loop on fuel: the addresses that it pushes, and the `offset` that it leaves.
pub lines_from : ℕ → ℕ → ℕ → ℕ → List ℕ × ℕ
lines_from zero start_address read_size offset = ([], offset)
lines_from (suc fuel) start_address read_size offset =
    let rest = lines_from fuel start_address (read_size - cacheline_size) (offset + 1) in
    if ltb 0 read_size
    then (add64 start_address (cacheline_size * offset) ∷ rest.0, rest.1)
    else ([], offset)

-- The size and the start address, by the kind of the read.
unfoldable pub extent : Layout → EdgeTable → ℕ → Bool → Option (ℕ × ℕ)
unfolding int
extent g t id true = do
  size ← int (t.edge_size id)
  some (size, add64 (t.edge_addr id) (g.points_num * g.dim * g.global_sizeof % u64_mod))
extent g t id false = do
  size ← int (g.dim * g.global_sizeof)
  some (size, id * g.dim * g.global_sizeof % u64_mod)

-- The addresses are appended to `address_list`, and their number is added to `accumulate_offset`.
unfoldable pub address_mapping : Layout → EdgeTable → ℕ → Bool → List ℕ → ℕ → Option (List ℕ × ℕ)
unfolding extent lines_from
address_mapping g t id is_edge_read address_list accumulate_offset = do
  (size, start_address) ← extent g t id is_edge_read
  read_size ← int (size + start_address % cacheline_size)
  let aligned = start_address - start_address % cacheline_size
  let (lines, offset) = lines_from read_size aligned read_size 0
  total ← int (accumulate_offset + offset)
  some (address_list ++ lines, total)
