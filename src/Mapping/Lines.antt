-- ===== src/Mapping/Lines.antt =====
-- The loop of `address_mapping` of src/qe.cc in closed form.
use near_mem_nsg.Base.{
  ℕ, zero, suc, ◌+◌, ◌-◌, ◌*◌, ◌/◌, ◌≤◌, ◌<◌, ◌≡◌, some, arith, length, get_elem?, add64,
}
use near_mem_nsg.Mapping.{cacheline_size, lines_from}

-- How many lines hold a number of bytes from a line's start.
abbrev pub line_count : ℕ → ℕ
line_count size = (size + 63) / cacheline_size

module _ (start : ℕ) where
  pub lines-count :
      (fuel size offset : ℕ)
      → size ≤ fuel
      → (length (lines_from fuel start size offset).0 ≡ line_count size)
        × ((lines_from fuel start size offset).1 ≡ offset + line_count size)
  unfolding lines_from
  lines-count zero size offset h = omega arith
  lines-count (suc fuel) size offset h =
      ground (arith, lines-count fuel (size - cacheline_size) (offset + 1))

  pub lines-get :
      (fuel size offset i : ℕ)
      → size ≤ fuel
      → i < line_count size
      → get_elem? (lines_from fuel start size offset).0 i
        ≡ some (add64 start (cacheline_size * (offset + i)))
  unfolding lines_from
  lines-get zero size offset i h k = absurd (omega arith)
  lines-get (suc fuel) size offset zero h k = ground arith
  lines-get (suc fuel) size offset (suc i) h k =
      ground (arith, lines-get fuel (size - cacheline_size) (offset + 1) i)
