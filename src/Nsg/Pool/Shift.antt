-- ===== src/Nsg/Pool/Shift.antt =====
-- What `memmove` and the write after it do to a pool.
use near_mem_nsg.Base.{
  ℕ, zero, suc, ◌+◌, ◌-◌, ◌≤◌, ◌<◌, ◌≡◌, refl, sym, ap, ◌∙◌, Bool, some, List, [], ◌∷◌, ◌++◌, arith,
  length, get_elem?, set, take, drop, All, length-set,
}
use near_mem_nsg.Nsg.Pool.{Neighbor, memmove, write, place}

module _ {ℓ} {A : Type ℓ} where
  abbrev pub remove_at : ℕ → List A → List A
  remove_at k [] = []
  remove_at zero (x ∷ xs) = xs
  remove_at (suc k) (x ∷ xs) = x ∷ remove_at k xs

  -- The list with `y` at `i`, and the entries from there up to `k` one place further: the one at `k`
  -- is gone.
  abbrev pub shift_in : ℕ → ℕ → A → List A → List A
  shift_in zero k y xs = y ∷ remove_at k xs
  shift_in (suc i) zero y xs = xs
  shift_in (suc i) (suc k) y [] = []
  shift_in (suc i) (suc k) y (x ∷ xs) = x ∷ shift_in i k y xs

  remove_at_lem :
      (k : ℕ) (xs : List A) → k < length xs → take k xs ++ drop (suc k) xs ≡ remove_at k xs
  remove_at_lem k [] h = absurd (omega arith)
  remove_at_lem zero (x ∷ xs) h = refl
  remove_at_lem (suc k) (x ∷ xs) h = ap (λ ys. x ∷ ys) (remove_at_lem k xs (omega arith))

  shift_in_lem :
      (i k n : ℕ) (y : A) (xs : List A)
      → k ≡ n + i
      → k < length xs
      → set (take (suc i) xs ++ (take n (drop i xs) ++ drop (suc k) xs)) i y ≡ shift_in i k y xs
  shift_in_lem zero k n y [] e h = absurd (omega arith)
  shift_in_lem zero k n y (x ∷ xs) e h =
      let same : k ≡ n = omega arith in rw (← same) (ap (λ ys. y ∷ ys) (remove_at_lem k (x ∷ xs) h))
  shift_in_lem (suc i) zero n y xs e h = absurd (omega arith)
  shift_in_lem (suc i) (suc k) n y [] e h = absurd (omega arith)
  shift_in_lem (suc i) (suc k) n y (x ∷ xs) e h =
      ap (λ ys. x ∷ ys) (shift_in_lem i k n y xs (omega arith) (omega arith))

  length-remove_at :
      (k : ℕ) (xs : List A) → k < length xs → suc (length (remove_at k xs)) ≡ length xs
  length-remove_at k [] h = absurd (omega arith)
  length-remove_at zero (x ∷ xs) h = refl
  length-remove_at (suc k) (x ∷ xs) h = ap suc (length-remove_at k xs (omega arith))

  pub length-shift_in :
      (i k : ℕ) (y : A) (xs : List A) → k < length xs → length (shift_in i k y xs) ≡ length xs
  length-shift_in zero k y xs h = length-remove_at k xs h
  length-shift_in (suc i) zero y xs h = refl
  length-shift_in (suc i) (suc k) y [] h = refl
  length-shift_in (suc i) (suc k) y (x ∷ xs) h = ap suc (length-shift_in i k y xs (omega arith))

  All-remove_at {κ} : (P : A → Type κ) (k : ℕ) (xs : List A) → All P xs → All P (remove_at k xs)
  All-remove_at P k [] h = h
  All-remove_at P zero (x ∷ xs) h = h.1
  All-remove_at P (suc k) (x ∷ xs) h = (h.0, All-remove_at P k xs h.1)

  pub All-shift_in {κ} :
      (P : A → Type κ) (i k : ℕ) (y : A) (xs : List A) → P y → All P xs → All P (shift_in i k y xs)
  All-shift_in P zero k y xs p h = (p, All-remove_at P k xs h)
  All-shift_in P (suc i) zero y xs p h = h
  All-shift_in P (suc i) (suc k) y [] p h = h
  All-shift_in P (suc i) (suc k) y (x ∷ xs) p h = (h.0, All-shift_in P i k y xs p h.1)

  -- Entry by entry: those before `i`, the one at `i`, and those from `i` to `k`.
  pub get_elem?-shift_in_before :
      (i k j : ℕ) (y : A) (xs : List A) → j < i → get_elem? (shift_in i k y xs) j ≡ get_elem? xs j
  get_elem?-shift_in_before zero k j y xs h = absurd (omega arith)
  get_elem?-shift_in_before (suc i) zero j y xs h = refl
  get_elem?-shift_in_before (suc i) (suc k) j y [] h = refl
  get_elem?-shift_in_before (suc i) (suc k) zero y (x ∷ xs) h = refl
  get_elem?-shift_in_before (suc i) (suc k) (suc j) y (x ∷ xs) h =
      get_elem?-shift_in_before i k j y xs (omega arith)

  pub get_elem?-shift_in_at :
      (i k : ℕ) (y : A) (xs : List A)
      → i ≤ k
      → k < length xs
      → get_elem? (shift_in i k y xs) i ≡ some y
  get_elem?-shift_in_at zero k y xs h g = refl
  get_elem?-shift_in_at (suc i) zero y xs h g = absurd (omega arith)
  get_elem?-shift_in_at (suc i) (suc k) y [] h g = absurd (omega arith)
  get_elem?-shift_in_at (suc i) (suc k) y (x ∷ xs) h g =
      get_elem?-shift_in_at i k y xs (omega arith) (omega arith)

  get_elem?-remove_at :
      (k j : ℕ) (xs : List A) → j < k → get_elem? (remove_at k xs) j ≡ get_elem? xs j
  get_elem?-remove_at k j [] h = refl
  get_elem?-remove_at zero j (x ∷ xs) h = absurd (omega arith)
  get_elem?-remove_at (suc k) zero (x ∷ xs) h = refl
  get_elem?-remove_at (suc k) (suc j) (x ∷ xs) h = get_elem?-remove_at k j xs (omega arith)

  pub get_elem?-shift_in_after :
      (i k j : ℕ) (y : A) (xs : List A)
      → i ≤ j
      → j < k
      → get_elem? (shift_in i k y xs) (suc j) ≡ get_elem? xs j
  get_elem?-shift_in_after zero k j y xs h g = get_elem?-remove_at k j xs g
  get_elem?-shift_in_after (suc i) zero j y xs h g = absurd (omega arith)
  get_elem?-shift_in_after (suc i) (suc k) j y [] h g = refl
  get_elem?-shift_in_after (suc i) (suc k) zero y (x ∷ xs) h g = absurd (omega arith)
  get_elem?-shift_in_after (suc i) (suc k) (suc j) y (x ∷ xs) h g =
      get_elem?-shift_in_after i k j y xs (omega arith) (omega arith)

-- Where there is room, `place` shifts the new entry in.
pub place-shift_in :
    {D : Type 0} (lt : D → D → Bool) (addr : List (Neighbor D)) (k : ℕ) (nn : Neighbor D) (i : ℕ)
    → i ≤ k
    → k < length addr
    → place lt addr k nn i ≡ some (i, shift_in i k nn addr)
unfolding place memmove write
place-shift_in {D} lt addr k nn i h g =
    let e : i + 1 ≡ suc i = omega arith in
    let e' : suc i + (k - i) ≡ suc k = omega arith in
    let m : List (Neighbor D) =
      take (suc i) addr ++ (take (k - i) (drop i addr) ++ drop (suc k) addr) in
    let shifted : set m i nn ≡ shift_in i k nn addr =
      shift_in_lem i k (k - i) nn addr (omega arith) g in
    let same : length m ≡ length addr =
      sym (length-set m i nn) ∙ ap length shifted ∙ length-shift_in i k nn addr g in
    rw (e, e') (ground (arith, shifted, same))
