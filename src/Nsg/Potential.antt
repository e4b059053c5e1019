-- ===== src/Nsg/Potential.antt =====
-- What bounds a search: the nodes that are not flagged, and the entries of the pool that are not
-- expanded.
use near_mem_nsg.Base.{
  ℕ, zero, suc, ◌+◌, ◌≤◌, ◌≡◌, refl, ap, Bool, true, false, some, List, [], ◌∷◌, arith,
  if◌then◌else◌, get_elem?, set,
}
use near_mem_nsg.Nsg.Pool.{Neighbor}
use near_mem_nsg.Nsg.Pool.Shift.{remove_at, shift_in}

-- How many nodes have no flag.
abbrev pub unseen : List Bool → ℕ
unseen [] = 0
unseen (true ∷ bs) = unseen bs
unseen (false ∷ bs) = suc (unseen bs)

-- How many entries wait to be expanded.
abbrev pub active : {D : Type 0} → List (Neighbor D) → ℕ
active [] = 0
active (e ∷ es) = (if e.flag then 1 else 0) + active es

pub unseen-set :
    (flags : List Bool) (id : ℕ)
    → get_elem? flags id ≡ some false
    → suc (unseen (set flags id true)) ≡ unseen flags
unseen-set [] id h = absurd (ground arith)
unseen-set (true ∷ bs) zero h = absurd (ground arith)
unseen-set (false ∷ bs) zero h = refl
unseen-set (true ∷ bs) (suc id) h = unseen-set bs id h
unseen-set (false ∷ bs) (suc id) h = ap suc (unseen-set bs id h)

-- A flag stays, whichever is set.
pub flag_stays :
    (flags : List Bool) (id i : ℕ)
    → get_elem? flags i ≡ some true
    → get_elem? (set flags id true) i ≡ some true
flag_stays [] id i h = h
flag_stays (b ∷ bs) zero zero h = refl
flag_stays (b ∷ bs) zero (suc i) h = h
flag_stays (b ∷ bs) (suc id) zero h = h
flag_stays (b ∷ bs) (suc id) (suc i) h = flag_stays bs id i h

module _ {D : Type 0} where
  active-remove_at : (k : ℕ) (xs : List (Neighbor D)) → active (remove_at k xs) ≤ active xs
  active-remove_at k [] = omega arith
  active-remove_at zero (x ∷ xs) = omega arith
  active-remove_at (suc k) (x ∷ xs) = omega (arith, active-remove_at k xs)

  pub active-shift_in :
      (i k : ℕ) (y : Neighbor D) (xs : List (Neighbor D))
      → active (shift_in i k y xs) ≤ suc (active xs)
  active-shift_in zero k y xs = ground (arith, active-remove_at k xs)
  active-shift_in (suc i) zero y xs = omega arith
  active-shift_in (suc i) (suc k) y [] = omega arith
  active-shift_in (suc i) (suc k) y (x ∷ xs) = omega (arith, active-shift_in i k y xs)

  pub active-set :
      (xs : List (Neighbor D)) (k : ℕ) (y : Neighbor D) → active (set xs k y) ≤ suc (active xs)
  active-set [] k y = omega arith
  active-set (x ∷ xs) zero y = ground arith
  active-set (x ∷ xs) (suc k) y = omega (arith, active-set xs k y)

  pub active-expanded :
      (xs : List (Neighbor D)) (k : ℕ) (e : Neighbor D)
      → get_elem? xs k ≡ some e
      → e.flag ≡ true
      → suc (active (set xs k (record e { flag = false }))) ≡ active xs
  active-expanded [] k e h f = absurd (ground arith)
  active-expanded (x ∷ xs) zero e h f = ground arith
  active-expanded (x ∷ xs) (suc k) e h f = ground (arith, active-expanded xs k e h f)
