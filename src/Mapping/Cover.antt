-- ===== src/Mapping/Cover.antt =====
-- What `address_mapping` of src/qe.cc answers: the cache lines that a read touches.
use near_mem_nsg.Base.{
  ℕ, ◌+◌, ◌-◌, ◌*◌, ◌/◌, ◌%◌, ◌^◌, ◌≤◌, ◌<◌, ◌≡◌, ap, ◌∙◌, Bool, some, List, ◌++◌, arith, length,
  get_elem?, u64_mod,
}
use near_mem_nsg.Mapping.{
  Layout, EdgeTable, cacheline_size, int, lines_from, extent, address_mapping,
}
use near_mem_nsg.Mapping.Lines.{line_count, lines-count, lines-get}

-- The line that holds a byte.
abbrev pub line_of : ℕ → ℕ
line_of byte = cacheline_size * (byte / cacheline_size)

-- The lines that a read of `size` bytes at `start` touches, in order: each entry is a line with a
-- byte of the read, and the line of each byte of the read is among them.
pub record Covers (size start : ℕ) (lines : List ℕ) : Type 0 where
  pub touched :
      (i : ℕ)
      → i < length lines
      → (get_elem? lines i ≡ some (line_of start + cacheline_size * i))
        × (line_of start + cacheline_size * i < start + size)
  pub covered :
      (byte : ℕ)
      → start ≤ byte
      → byte < start + size
      → get_elem? lines (byte / cacheline_size - start / cacheline_size) ≡ some (line_of byte)

lines-Covers :
    (size start : ℕ)
    → 0 < size
    → start + size + cacheline_size ≤ u64_mod
    → let total = size + start % cacheline_size in
      Covers size start (lines_from total (start - start % cacheline_size) total 0).0
lines-Covers size start p w = record {
  touched = λ i h.
      let e = lines-get aligned total total 0 i (omega arith) (omega (arith, count)) in
      (e ∙ ap some (omega (arith, count)), omega (arith, count));
  covered = λ b h k.
      let e =
        lines-get aligned total total 0 (b / cacheline_size - start / cacheline_size) (omega arith)
          (omega arith) in
      e ∙ ap some (omega arith);
}
  where
    total : ℕ
    total = size + start % cacheline_size

    aligned : ℕ
    aligned = start - start % cacheline_size

    count : length (lines_from total aligned total 0).0 ≡ line_count total
    count = (lines-count aligned total total 0 (omega arith)).0

-- A mapping whose sizes are in the range of an `int`, of a read of at least one byte that does not
-- reach the end of the address space, succeeds; it appends exactly the cache lines that the read
-- touches, each once, in ascending order, and adds their number to the accumulated offset.
pub address_mapping-Covers :
    (g : Layout) (t : EdgeTable) (id : ℕ) (is_edge_read : Bool) (old : List ℕ) (acc : ℕ)
    {size start : ℕ}
    → extent g t id is_edge_read ≡ some (size, start)
    → 0 < size
    → size + cacheline_size < 2 ^ 31
    → acc + size + cacheline_size < 2 ^ 31
    → start + size + cacheline_size ≤ u64_mod
    → (lines : List ℕ) × (address_mapping g t id is_edge_read old acc
        ≡ some (old ++ lines, acc + length lines))
      × Covers size start lines
unfolding address_mapping int
address_mapping-Covers g t id is_edge_read old acc {size = size} {start = start} e p s a w = (
  (lines_from total (start - start % cacheline_size) total 0).0,
  ground (arith, lines-count (start - start % cacheline_size) total total 0),
  lines-Covers size start p w,
)
  where
    total : ℕ
    total = size + start % cacheline_size
