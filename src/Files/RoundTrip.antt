-- ===== src/Files/RoundTrip.antt =====
-- What `save_result` writes, `load_data` reads.
use near_mem_nsg.Base.{
  ℕ, suc, ◌+◌, ◌*◌, ◌/◌, ◌%◌, ◌<◌, ◌≡◌, refl, sym, ap, subst, ◌∙◌, some, List, [], ◌∷◌, ◌++◌, arith,
  length, drop, All, length-append, take-append, take_whole, drop-append, u32_mod,
}
use native.Mathlib.Nat.{mul-div_cancel}
use near_mem_nsg.Files.{read_rows, load_data, save_result}

module _ (dim : ℕ) (small : dim + 1 < u32_mod) where
  save_row :
      (r : List ℕ) (rs : List (List ℕ))
      → length r ≡ dim
      → save_result (r ∷ rs) ≡ dim ∷ (r ++ save_result rs)
  unfolding save_result
  save_row r rs h =
      let gk : length r % u32_mod ≡ dim = omega (arith, h, small) in
      rw (gk, take_whole r dim h) refl

  length-save_result :
      (rs : List (List ℕ))
      → All (λ r. length r ≡ dim) rs
      → length (save_result rs) ≡ length rs * (dim + 1)
  unfolding save_result
  length-save_result [] h = omega arith
  length-save_result (r ∷ rs) h =
      ap length (save_row r rs h.0)
      ∙ grind (arith, length-append r (save_result rs), length-save_result rs h.1, h.0)

  read_rows-save_result :
      (rs : List (List ℕ))
      → All (λ r. length r ≡ dim) rs
      → read_rows (length rs) dim (save_result rs) ≡ rs
  unfolding read_rows
  read_rows-save_result [] h = refl
  read_rows-save_result (r ∷ rs) h =
      let next : drop (dim + 1) (dim ∷ (r ++ save_result rs)) ≡ save_result rs =
        subst (λ n. drop n (dim ∷ (r ++ save_result rs)) ≡ save_result rs) (suc_lem dim)
          (drop-append r (save_result rs) dim h.0) in
      rw
        (
          save_row r rs h.0,
          take-append r (save_result rs) dim h.0,
          next,
          read_rows-save_result rs h.1,
        )
        refl
    where
      suc_lem : (n : ℕ) → suc n ≡ n + 1
      suc_lem n = omega arith

-- A matrix of at least one row and fewer than 2 ^ 32, with `dim` entries in each and `dim` below 2
-- ^ 30, that is saved by `save_result` is loaded by `load_data`, with its size.
pub load_data-save_result :
    (dim : ℕ) (rows : List (List ℕ))
    → dim * 4 < u32_mod
    → All (λ r. length r ≡ dim) rows
    → 0 < length rows
    → length rows < u32_mod
    → load_data (some (save_result rows))
      ≡ some (record { rows = rows; num = length rows; dim = dim })
unfolding load_data
load_data-save_result dim [] small h pos few = absurd (omega arith)
load_data-save_result dim (r ∷ rs) small h pos few =
    let small' : dim + 1 < u32_mod = omega (arith, small) in
    let w : (dim + 1) % u32_mod ≡ dim + 1 = omega (arith, small) in
    let q = sym (save_row dim small' r rs h.0) in
    let len = ap length q ∙ length-save_result dim small' (r ∷ rs) h in
    let num : length (dim ∷ (r ++ save_result rs)) / (dim + 1) % u32_mod ≡ length (r ∷ rs) =
      rw (len, mul-div_cancel (length (r ∷ rs)) {n = dim + 1} (omega arith)) (omega (arith, few)) in
    let back : read_rows (length (r ∷ rs)) dim (dim ∷ (r ++ save_result rs)) ≡ r ∷ rs =
      ap (read_rows (length (r ∷ rs)) dim) q ∙ read_rows-save_result dim small' (r ∷ rs) h in
    ap (λ ws. load_data (some ws)) (sym q) ∙ ground (arith, w, num, back)
