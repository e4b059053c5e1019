-- ===== src/Mapping/Fits.antt =====
-- `address_mapping` of src/qe.cc for the reads of one step of the search: their lines stay within
-- an `int`.
use near_mem_nsg.Base.{ℕ, ◌+◌, ◌-◌, ◌%◌, ◌^◌, ◌≤◌, ◌<◌, ◌≡◌, Bool, some, List, ◌++◌, arith}
use near_mem_nsg.Mapping.{
  Layout, EdgeTable, cacheline_size, int, lines_from, extent, address_mapping,
}
use near_mem_nsg.Mapping.Lines.{lines-count}

-- A mapping succeeds where the size and the lines read so far leave room in an `int`, and adds no
-- more to these than the size and one line.
pub address_mapping-fits :
    (g : Layout) (t : EdgeTable) (id : ℕ) (is_edge_read : Bool) (old : List ℕ) (acc : ℕ)
    (size start : ℕ)
    → extent g t id is_edge_read ≡ some (size, start)
    → acc + (size + cacheline_size) < 2 ^ 31
    → (lines : List ℕ) × (acc' : ℕ) × (address_mapping g t id is_edge_read old acc
        ≡ some (lines, acc'))
      × (acc' ≤ acc + (size + cacheline_size))
unfolding address_mapping int
address_mapping-fits g t id is_edge_read old acc size start e room = (
  old ++ (lines_from total (start - start % cacheline_size) total 0).0,
  acc + (lines_from total (start - start % cacheline_size) total 0).1,
  ground (arith, count),
  ground (arith, count),
)
  where
    total : ℕ
    total = size + start % cacheline_size

    count : (lines_from total (start - start % cacheline_size) total 0).1 ≤ size + cacheline_size
    count =
        omega (arith, (lines-count (start - start % cacheline_size) total total 0 (omega arith)).1)
