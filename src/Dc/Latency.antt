-- ===== src/Dc/Latency.antt =====
-- The latency that src/dc.cc models: exact for vectors of at most as many dimensions as there are
-- compute units, and lost after the first answer.
use near_mem_nsg.Base.{
  ℕ, zero, suc, ◌+◌, ◌-◌, ◌*◌, ◌≤◌, ◌<◌, ◌≡◌, refl, ap, Bool, true, false, ◌&&◌, ◌||◌, some, List,
  [], ◌∷◌, ◌++◌, map, arith, ◌==◌, >>=-eq-some, length, replicate, u32_mod,
}
use near_mem_nsg.Struct.{DistanceTask, DcTaskState, minus_pending}
use near_mem_nsg.TaskQueue.{Channel, full, push, pop}
use near_mem_nsg.TaskQueue.Bounds.{entries}
use near_mem_nsg.Dc.{
  Config, Counters, State, advance, reset, visit, scan, no_counts, current, deliver, do_cycle,
}
use near_mem_nsg.Dc.Units.{UnitIsValid, LatencyIsValid, work, visit-valid}
use near_mem_nsg.Dc.Work.{cycles, accepted, do_cycle-accepted}

abbrev pub with_units : List DcTaskState → State → State
with_units us s = record s { dc = record s.dc { dc_task_state = us } }

module _ (cfg : Config) (l : LatencyIsValid cfg) (units : 0 < cfg.num_compute_unit)
    (word : cfg.num_compute_unit < u32_mod) where
  -- One pass for a unit that has no competitor.
  abbrev solo : DcTaskState → DcTaskState
  solo u = (visit cfg no_counts u).1

  abbrev Within : Counters → ℕ → Type 0
  Within n d =
      (n.counter_minus + d ≤ cfg.num_compute_unit) × (n.counter_multi + d ≤ cfg.num_compute_unit)

  visit-solo :
      (n : Counters) (u : DcTaskState) (d : ℕ)
      → Within n (suc d)
      → ((visit cfg n u).1 ≡ solo u) × Within (visit cfg n u).0 d
  unfolding visit advance
  visit-solo n u d h = ground arith

  scan-replicate :
      (n : Counters) (u : DcTaskState) (d : ℕ)
      → Within n d
      → (scan cfg n (replicate d u)).1 ≡ replicate d (solo u)
  unfolding scan
  scan-replicate n u zero h = refl
  scan-replicate n u (suc d) h =
      let (e, w) = visit-solo n u d h in cc (e, scan-replicate (visit cfg n u).0 u d w)

  solo-work : (u : DcTaskState) → UnitIsValid u → work cfg (solo u) ≡ work cfg u - 1
  unfolding visit advance
  solo-work u v = ground arith

  visit-done :
      (n : Counters) (u : DcTaskState)
      → UnitIsValid u
      → (visit cfg n u).0.all_computation_finished
        ≡ (n.all_computation_finished && (work cfg u == 0))
  unfolding visit
  visit-done n u v = ground arith

  scan-done :
      (n : Counters) (u : DcTaskState) (d : ℕ)
      → UnitIsValid u
      → (scan cfg n (replicate d u)).0.all_computation_finished
        ≡ (n.all_computation_finished && ((d == 0) || (work cfg u == 0)))
  unfolding scan
  scan-done n u zero v = ground arith
  scan-done n u (suc d) v = ground (arith, visit-done n u v, scan-done (visit cfg n u).0 u d v)

  step-solo :
      (s : State) (d : ℕ) (u : DcTaskState)
      → s.dc.dc_work_finished ≡ false
      → UnitIsValid u
      → 0 < d
      → d ≤ cfg.num_compute_unit
      → 0 < work cfg u
      → do_cycle cfg (with_units (replicate d u) s)
        ≡ some (true, with_units (replicate d (solo u)) s)
  unfolding do_cycle
  step-solo s d u busy v p q w =
      ground (arith, scan-replicate no_counts u d (omega arith), scan-done no_counts u d v)

  solos : ℕ → DcTaskState → DcTaskState
  solos zero u = u
  solos (suc k) u = solos k (solo u)

  solos-work :
      (k : ℕ) (u : DcTaskState)
      → UnitIsValid u
      → UnitIsValid (solos k u) × (work cfg (solos k u) ≡ work cfg u - k)
  unfolding solos
  solos-work zero u v = (v, omega arith)
  solos-work (suc k) u v =
      let (w, e) = solos-work k (solo u) (visit-valid cfg l no_counts u v) in
      (w, omega (arith, solo-work u v, e))

  cycles-solo :
      (k : ℕ) (s : State) (d : ℕ) (u : DcTaskState)
      → s.dc.dc_work_finished ≡ false
      → UnitIsValid u
      → 0 < d
      → d ≤ cfg.num_compute_unit
      → k ≤ work cfg u
      → cycles cfg k (with_units (replicate d u) s) ≡ some (with_units (replicate d (solos k u)) s)
  unfolding cycles solos
  cycles-solo zero s d u busy v p q w = refl
  cycles-solo (suc k) s d u busy v p q w = rw (step-solo s d u busy v p q (omega arith)) (
      cycles-solo k s d (solo u) busy (visit-valid cfg l no_counts u v) p q
        (omega (arith, solo-work u v)))

  finish-solo :
      (s : State) (d : ℕ) (u : DcTaskState)
      → s.dc.dc_work_finished ≡ false
      → UnitIsValid u
      → work cfg u ≡ 0
      → full s.return_distance_sender ≡ false
      → (t : State) × (do_cycle cfg (with_units (replicate d u) s) ≡ some (true, t))
        × (entries t.return_distance_sender ≡ entries s.return_distance_sender ++ current s.dc ∷ [])
        × (t.dc.dc_work_finished ≡ true)
        × (t.dc.dc_task_state ≡ [])
  unfolding do_cycle deliver push
  finish-solo s d u busy v w room = (
    record s {
      dc = record s.dc { dc_task_state = []; dc_work_finished = true };
      return_distance_sender = record s.return_distance_sender {
        task_queue = record { queue = entries s.return_distance_sender ++ current s.dc ∷ [] };
      };
    },
    ground (arith, scan-done no_counts u d v),
    refl,
    refl,
    refl,
  )

  reset-replicate :
      (us : List DcTaskState)
      → map (reset cfg) us
        ≡ replicate
            (length us)
            (record { state = minus_pending; remaining_cycle = cfg.latency_compute_unit })
  unfolding reset
  reset-replicate [] = refl
  reset-replicate (u ∷ us) = cc (reset-replicate us)

  cycles-then :
      (k : ℕ) (s : State) {t u : State} {r : Bool}
      → cycles cfg k s ≡ some t
      → do_cycle cfg t ≡ some (r, u)
      → cycles cfg (suc k) s ≡ some u
  unfolding cycles
  cycles-then zero s {t = t} {u = u} p q = ground (arith, p, q)
  cycles-then (suc k) s {t = t} {u = u} p q =
      let ((r, s'), e, f) = >>=-eq-some (do_cycle cfg s) _ p in rw e (cycles-then k s' f q)

  cycles-accepted :
      (k : ℕ) (s : State) (x : DistanceTask) (rx : Channel DistanceTask) {t : State}
      → s.dc.dc_work_finished ≡ true
      → pop s.distance_receiver ≡ some (x, rx)
      → cycles cfg k (accepted cfg s x rx) ≡ some t
      → cycles cfg (suc k) s ≡ some t
  unfolding cycles
  cycles-accepted k s x rx idle p h = rw (do_cycle-accepted cfg s x rx idle p) h

  abbrev unit : DcTaskState
  unit = record { state = minus_pending; remaining_cycle = cfg.latency_compute_unit }

  abbrev latency : ℕ
  latency = 2 * cfg.latency_compute_unit + 4

  -- An idle computer with at least one unit and no more than its compute units can serve at once
  -- gives no answer in the cycle that accepts a task nor in the next `2 * latency + 4`, and answers
  -- in the cycle after those; then it has no units left.
  pub latency_exact :
      (s : State) {x : DistanceTask} {rx : Channel DistanceTask}
      → s.dc.dc_work_finished ≡ true
      → pop s.distance_receiver ≡ some (x, rx)
      → full s.return_distance_sender ≡ false
      → 0 < length s.dc.dc_task_state
      → length s.dc.dc_task_state ≤ cfg.num_compute_unit
      → ((k : ℕ)
          → k ≤ 2 * cfg.latency_compute_unit + 4
          → (t : State) × (cycles cfg (suc k) s ≡ some t)
            × (t.dc.dc_work_finished ≡ false)
            × (entries t.return_distance_sender ≡ entries s.return_distance_sender))
        × ((t : State) × (cycles cfg (suc (suc (2 * cfg.latency_compute_unit + 4))) s ≡ some t)
            × (entries t.return_distance_sender ≡ entries s.return_distance_sender ++ x ∷ [])
            × (t.dc.dc_task_state ≡ []))
  unfolding accepted
  latency_exact s {x = x} {rx = rx} idle p room some_units few = (before, after)
    where
      d : ℕ
      d = length s.dc.dc_task_state

      start : State
      start = accepted cfg s x rx

      same : start ≡ with_units (replicate d unit) start
      same = rw (reset-replicate s.dc.dc_task_state)

      reached :
          (k : ℕ)
          → k ≤ latency
          → cycles cfg (suc k) s ≡ some (with_units (replicate d (solos k unit)) start)
      reached k h =
          cycles-accepted k s x rx idle p
            (rw same (cycles-solo k start d unit refl (omega arith) some_units few (omega arith)))

      before :
          (k : ℕ)
          → k ≤ latency
          → (t : State) × (cycles cfg (suc k) s ≡ some t)
            × (t.dc.dc_work_finished ≡ false)
            × (entries t.return_distance_sender ≡ entries s.return_distance_sender)
      before k h = (with_units (replicate d (solos k unit)) start, reached k h, refl, refl)

      after :
          (t : State) × (cycles cfg (suc (suc latency)) s ≡ some t)
          × (entries t.return_distance_sender ≡ entries s.return_distance_sender ++ x ∷ [])
          × (t.dc.dc_task_state ≡ [])
      after =
          let (v, w) = solos-work latency unit (omega arith) in
          let (t, e, f, h, g) =
            finish-solo start d (solos latency unit) refl v (omega arith) room in
          (t, cycles-then (suc latency) s (reached latency (omega arith)) e, f, g)

  deliver_at_once :
      (s : State)
      → s.dc.dc_work_finished ≡ false
      → s.dc.dc_task_state ≡ []
      → full s.return_distance_sender ≡ false
      → (t : State) × (do_cycle cfg s ≡ some (true, t))
        × (entries t.return_distance_sender ≡ entries s.return_distance_sender ++ current s.dc ∷ [])
        × (t.dc.dc_work_finished ≡ true)
        × (t.dc.dc_task_state ≡ [])
  unfolding do_cycle deliver push scan
  deliver_at_once s busy no_units room = (
    record s {
      dc = record s.dc { dc_task_state = []; dc_work_finished = true };
      return_distance_sender = record s.return_distance_sender {
        task_queue = record { queue = entries s.return_distance_sender ++ current s.dc ∷ [] };
      };
    },
    ground arith,
    refl,
    refl,
    refl,
  )

  -- A computer that has no units left, as after its first answer, answers every later task in the
  -- very next cycle after accepting it, and still has none: the modelled latency is lost.
  pub latency_lost :
      (s : State) {x : DistanceTask} {rx : Channel DistanceTask}
      → s.dc.dc_work_finished ≡ true
      → s.dc.dc_task_state ≡ []
      → pop s.distance_receiver ≡ some (x, rx)
      → full s.return_distance_sender ≡ false
      → (t : State) × (cycles cfg 2 s ≡ some t)
        × (entries t.return_distance_sender ≡ entries s.return_distance_sender ++ x ∷ [])
        × (t.dc.dc_work_finished ≡ true)
        × (t.dc.dc_task_state ≡ [])
  unfolding accepted cycles
  latency_lost s {x = x} {rx = rx} idle no_units p room =
      let start : State = accepted cfg s x rx in
      let (t, e, f, g, h) = deliver_at_once start refl (ap (map (reset cfg)) no_units) room in
      (t, cycles-accepted 1 s x rx idle p (cycles-then 0 start refl e), f, g, h)
