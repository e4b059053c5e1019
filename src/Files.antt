-- ===== src/Files.antt =====
-- `load_data` and `save_result` of bins/simulation.cc, which bins/main.cc has too. A file is the list
-- of its 32-bit words, which is all that is read and written, or `none` where it cannot be opened;
-- an incomplete word at the end does not count. Vectors are read as words and kept in rows, which
-- stand one after the other in `data`; `vector_at` is what `data + i * dim` points to.
pub mod RoundTrip
pub mod Vectors
use near_mem_nsg.Base.{
  ℕ, zero, suc, ◌+◌, ◌*◌, ◌/◌, ◌%◌, ◌||◌, Option, none, some, List, [], ◌∷◌, ◌++◌, leb, ◌==◌,
  if◌then◌else◌, length, take, drop, u32_mod,
}

-- `data`, `num` and `dim`.
pub record Matrix : Type 0 where
  pub rows : List (List ℕ)
  pub num : ℕ
  pub dim : ℕ

-- The loop: a word is passed over, and `dim` words are read.
unfoldable pub read_rows : ℕ → ℕ → List ℕ → List (List ℕ)
read_rows zero dim ws = []
read_rows (suc n) dim ws = take dim (drop 1 ws) ∷ read_rows n dim (drop (dim + 1) ws)

-- `load_data`: an empty file leaves `dim` without a value, a `dim + 1` that wraps divides by 0, and a
-- `dim * 4` that wraps reads less than a row and leaves the rest without values.
unfoldable pub load_data : Option (List ℕ) → Option Matrix
unfolding read_rows
load_data none = none
load_data (some []) = none
load_data (some (dim ∷ ws)) =
    let width = (dim + 1) % u32_mod in
    let num = (length (dim ∷ ws) / width) % u32_mod in
    if width == 0 || leb u32_mod (dim * 4)
    then none
    else some (record { rows = read_rows num dim (dim ∷ ws); num = num; dim = dim })

-- The words of the rows.
unfoldable pub words_of : List (List ℕ) → List ℕ
words_of [] = []
words_of (r ∷ rs) = r ++ words_of rs

-- The vector at `data + i * dim`, a product of two `unsigned`; past the end is `none`.
unfoldable pub vector_at : ℕ → List (List ℕ) → ℕ → Option (List ℕ)
vector_at dim rows i =
    let start = i * dim % u32_mod in
    if leb (start + dim) (length (words_of rows))
    then some (take dim (drop start (words_of rows)))
    else none

-- `save_result`.
unfoldable pub save_result : List (List ℕ) → List ℕ
save_result [] = []
save_result (r ∷ rs) = let gk = length r % u32_mod in gk ∷ (take gk r ++ save_result rs)
