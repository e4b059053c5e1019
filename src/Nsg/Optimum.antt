-- ===== src/Nsg/Optimum.antt =====
-- What the search of deps/nsg/src/index_nsg.cpp finds: a pool that no neighbour of its entries could
-- improve.
pub mod Insertion
pub mod Exploring
pub mod Visit
pub mod Reached
pub mod Start
pub mod Found
pub mod Search
pub mod Distances
use near_mem_nsg.Base.{ℕ, ◌-◌, ◌<◌, ◌≡◌, ◌⊎◌, Bool, false, some, List, get_elem?}
use near_mem_nsg.Nsg.Pool.{Neighbor}

module _ {V D : Type 0} (lt : D → D → Bool) (compare : V → V → D) (base : List V) (l : ℕ)
    (query : V) where
  -- A node stands among the first `L` entries.
  abbrev pub IsInPool : ℕ → List (Neighbor D) → Type 0
  IsInPool id pool =
      (i : ℕ) × (e : Neighbor D) × (i < l) × (get_elem? pool i ≡ some e) × (e.id ≡ id)

  -- A node is no nearer to the query than the last of the first `L` entries.
  abbrev pub IsNoNearer : ℕ → List (Neighbor D) → Type 0
  IsNoNearer id pool =
      (v : V) (last : Neighbor D)
      → get_elem? base id ≡ some v
      → get_elem? pool (l - 1) ≡ some last
      → lt (compare query v) last.distance ≡ false

  abbrev pub IsSettled : ℕ → List (Neighbor D) → Type 0
  IsSettled id pool = IsInPool id pool ⊎ IsNoNearer id pool

  -- The first `L` entries have the distances of their nodes.
  abbrev pub IsMeasured : List (Neighbor D) → Type 0
  IsMeasured pool =
      (i : ℕ) (e : Neighbor D) (v : V)
      → i < l
      → get_elem? pool i ≡ some e
      → get_elem? base e.id ≡ some v
      → e.distance ≡ compare query v
