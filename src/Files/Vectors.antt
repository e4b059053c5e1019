-- ===== src/Files/Vectors.antt =====
-- Where the offsets of the vectors do not wrap, a vector is a row.
use near_mem_nsg.Base.{
  ℕ, zero, suc, ◌+◌, ◌*◌, ◌%◌, ◌≤◌, ◌<◌, ◌≡◌, refl, ap, ◌∙◌, true, some, List, [], ◌∷◌, ◌++◌, arith,
  leb, length, get_elem?, take, drop, All, length-append, take-append, lt-get_elem?, u32_mod,
}
use near_mem_nsg.Files.{words_of, vector_at}

pub row_end : (i n d : ℕ) → i < n → i * d + d ≤ n * d
row_end i n d h = grind arith

drop_past : {A : Type 0} (xs ys : List A) (n : ℕ) → drop (length xs + n) (xs ++ ys) ≡ drop n ys
drop_past [] ys n = ap (λ m. drop m ys) (omega arith)
drop_past (x ∷ xs) ys n =
    let next : suc (length xs) + n ≡ suc (length xs + n) = omega arith in
    ap (λ m. drop m (x ∷ (xs ++ ys))) next ∙ drop_past xs ys n

bounded : (a b : ℕ) → a ≤ b → leb a b ≡ true
bounded a b h = ground arith

mod-small : (n : ℕ) → n < u32_mod → n % u32_mod ≡ n
mod-small n h = omega arith

offset_lem : (i d m : ℕ) → 0 < m → i * d + d ≤ m → i * d < m
offset_lem i zero m pos h = omega arith
offset_lem i (suc d) m pos h = omega arith

module _ (dim : ℕ) where
  row_words :
      (rows : List (List ℕ)) (i : ℕ) (v : List ℕ)
      → All (λ r. length r ≡ dim) rows
      → get_elem? rows i ≡ some v
      → (take dim (drop (i * dim) (words_of rows)) ≡ v) × (i * dim + dim ≤ length (words_of rows))
  unfolding words_of
  row_words [] i v even h = absurd (ground arith)
  row_words (r ∷ rows) zero v even h =
      let none_before : 0 * dim ≡ 0 = omega arith in
      let same : r ≡ v = ground arith in
      let long = length-append r (words_of rows) in
      let size = even.0 in
      (
        ap (λ n. take dim (drop n (r ++ words_of rows))) none_before
            ∙ take-append r (words_of rows) dim even.0
            ∙ same,
        omega arith,
      )
  row_words (r ∷ rows) (suc i) v even h =
      let (same, inside) = row_words rows i v even.1 h in
      let size = even.0 in
      let offset : suc i * dim ≡ length r + i * dim = grind arith in
      let long = length-append r (words_of rows) in
      (
        ap (λ n. take dim (drop n (r ++ words_of rows))) offset
            ∙ ap (take dim) (drop_past r (words_of rows) (i * dim))
            ∙ same,
        omega arith,
      )

  -- Row `i`, where its end is within the range of an `unsigned`.
  pub vector_at-row :
      (rows : List (List ℕ)) (i : ℕ) (v : List ℕ)
      → All (λ r. length r ≡ dim) rows
      → i * dim + dim ≤ u32_mod
      → get_elem? rows i ≡ some v
      → vector_at dim rows i ≡ some v
  unfolding vector_at
  vector_at-row rows i v even within h =
      let (same, inside) = row_words rows i v even h in
      let start : i * dim % u32_mod ≡ i * dim =
        mod-small (i * dim) (offset_lem i dim u32_mod (omega arith) within) in
      rw (start, bounded (i * dim + dim) (length (words_of rows)) inside, same) refl

  -- Every row, where this holds of the last.
  pub vector_at-in_range :
      (rows : List (List ℕ)) (i : ℕ) (v : List ℕ)
      → All (λ r. length r ≡ dim) rows
      → length rows * dim ≤ u32_mod
      → get_elem? rows i ≡ some v
      → vector_at dim rows i ≡ some v
  vector_at-in_range rows i v even within h =
      let last = row_end i (length rows) dim (lt-get_elem? rows i v h) in
      vector_at-row rows i v even (omega arith) h
