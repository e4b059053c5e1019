-- ===== src/Dc/Units.antt =====
-- The units of a distance computer of src/dc.cc over one cycle: the limit on the subtractions and
-- multiplications of a cycle, and the invariant that no counter underflows.
use near_mem_nsg.Base.{
  ℕ, ◌+◌, ◌-◌, ◌<◌, min, ◌≡◌, refl, ◌⊎◌, Bool, true, false, ◌&&◌, List, [], ◌∷◌, arith, ltb,
  if◌then◌else◌, length, All, u32_mod,
}
use near_mem_nsg.Struct.{
  DcTaskState, DcUnitState, minus_pending, multi_pending, plus_pending, finished_pending,
}
use near_mem_nsg.Dc.{Config, Counters, advance, visit, scan, no_counts}

-- A unit that is not done has a cycle left, so that `remaining_cycle--` does not wrap.
abbrev pub UnitIsValid : DcTaskState → Type 0
UnitIsValid u =
    ((u.state ≡ finished_pending) ⊎ (0 < u.remaining_cycle)) × (u.remaining_cycle < u32_mod)

abbrev pub LatencyIsValid : Config → Type 0
LatencyIsValid cfg = (0 < cfg.latency_compute_unit) × (cfg.latency_compute_unit < u32_mod)

-- The cycles of work that a unit has left: its own stage, and the stages after it.
abbrev pub work_in : Config → ℕ → DcUnitState → ℕ
work_in cfg r minus_pending = r + cfg.latency_compute_unit + 4
work_in cfg r multi_pending = r + 4
work_in cfg r plus_pending = r
work_in cfg r finished_pending = 0

abbrev pub work : Config → DcTaskState → ℕ
work cfg u = work_in cfg u.remaining_cycle u.state

abbrev pub same_state : DcUnitState → DcUnitState → Bool
same_state minus_pending minus_pending = true
same_state multi_pending multi_pending = true
same_state plus_pending plus_pending = true
same_state finished_pending finished_pending = true
same_state _ _ = false

-- How many units are in a state.
pub waiting : DcUnitState → List DcTaskState → ℕ
waiting st [] = 0
waiting st (u ∷ us) = (if same_state u.state st then 1 else 0) + waiting st us

-- How many units that were in a state have less work left than before.
pub served : Config → DcUnitState → List DcTaskState → List DcTaskState → ℕ
served cfg st (u ∷ us) (v ∷ vs) =
    (if same_state u.state st && ltb (work cfg v) (work cfg u) then 1 else 0) + served cfg st us vs
served cfg st _ _ = 0

module _ (cfg : Config) (l : LatencyIsValid cfg) where
  pub visit-valid : (n : Counters) (u : DcTaskState) → UnitIsValid u → UnitIsValid (visit cfg n u).1
  unfolding visit advance
  visit-valid n u v = ground arith

  pub scan-valid :
      (n : Counters) (us : List DcTaskState)
      → All UnitIsValid us
      → All UnitIsValid (scan cfg n us).1
  unfolding scan
  scan-valid n [] v = tt
  scan-valid n (u ∷ us) v = (visit-valid n u v.0, scan-valid (visit cfg n u).0 us v.1)

  -- One visit: the counters, and whether the unit is served.
  visit-minus :
      (n : Counters) (u : DcTaskState)
      → UnitIsValid u
      → n.counter_minus + 1 < u32_mod
      → ((visit cfg n u).0.counter_minus
          ≡ n.counter_minus + (if same_state u.state minus_pending then 1 else 0))
        × ((same_state u.state minus_pending && ltb (work cfg (visit cfg n u).1) (work cfg u))
            ≡ (same_state u.state minus_pending && ltb n.counter_minus cfg.num_compute_unit))
  unfolding visit advance
  visit-minus n u v h = ground arith

  visit-multi :
      (n : Counters) (u : DcTaskState)
      → UnitIsValid u
      → n.counter_multi + 1 < u32_mod
      → ((visit cfg n u).0.counter_multi
          ≡ n.counter_multi + (if same_state u.state multi_pending then 1 else 0))
        × ((same_state u.state multi_pending && ltb (work cfg (visit cfg n u).1) (work cfg u))
            ≡ (same_state u.state multi_pending && ltb n.counter_multi cfg.num_compute_unit))
  unfolding visit advance
  visit-multi n u v h = ground arith

  scan-minus :
      (n : Counters) (us : List DcTaskState)
      → All UnitIsValid us
      → n.counter_minus + length us < u32_mod
      → served cfg minus_pending us (scan cfg n us).1
        ≡ min (waiting minus_pending us) (cfg.num_compute_unit - n.counter_minus)
  unfolding served scan waiting
  scan-minus n [] v h = omega arith
  scan-minus n (u ∷ us) v h =
      ground (arith, visit-minus n u v.0, scan-minus (visit cfg n u).0 us v.1)

  scan-multi :
      (n : Counters) (us : List DcTaskState)
      → All UnitIsValid us
      → n.counter_multi + length us < u32_mod
      → served cfg multi_pending us (scan cfg n us).1
        ≡ min (waiting multi_pending us) (cfg.num_compute_unit - n.counter_multi)
  unfolding served scan waiting
  scan-multi n [] v h = omega arith
  scan-multi n (u ∷ us) v h =
      ground (arith, visit-multi n u v.0, scan-multi (visit cfg n u).0 us v.1)

  visit-plus :
      (n : Counters) (u : DcTaskState)
      → UnitIsValid u
      → (same_state u.state plus_pending && ltb (work cfg (visit cfg n u).1) (work cfg u))
        ≡ same_state u.state plus_pending
  unfolding visit advance
  visit-plus n u v = ground arith

  scan-plus :
      (n : Counters) (us : List DcTaskState)
      → All UnitIsValid us
      → served cfg plus_pending us (scan cfg n us).1 ≡ waiting plus_pending us
  unfolding served scan waiting
  scan-plus n [] v = refl
  scan-plus n (u ∷ us) v = ground (arith, visit-plus n u v.0, scan-plus (visit cfg n u).0 us v.1)

  -- In one pass over units that are valid, exactly as many of those that wait for a subtraction are
  -- served as there are compute units, or all of them if they are fewer; so with multiplications;
  -- every unit in its final additions is served; and the units stay valid, so that no cycle counter
  -- ever wraps below 0.
  pub scan-served :
      (us : List DcTaskState)
      → All UnitIsValid us
      → length us < u32_mod
      → (served cfg minus_pending us (scan cfg no_counts us).1
          ≡ min (waiting minus_pending us) cfg.num_compute_unit)
        × (served cfg multi_pending us (scan cfg no_counts us).1
            ≡ min (waiting multi_pending us) cfg.num_compute_unit)
        × (served cfg plus_pending us (scan cfg no_counts us).1 ≡ waiting plus_pending us)
        × All UnitIsValid (scan cfg no_counts us).1
  scan-served us v h = (
    omega (arith, scan-minus no_counts us v (omega arith)),
    omega (arith, scan-multi no_counts us v (omega arith)),
    scan-plus no_counts us v,
    scan-valid no_counts us v,
  )
