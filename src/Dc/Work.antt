-- ===== src/Dc/Work.antt =====
-- Progress of a distance computer of src/dc.cc: a task that it has accepted is answered, and within
-- which number of cycles.
use near_mem_nsg.Base.{
  ℕ, zero, suc, ◌+◌, ◌*◌, ◌≤◌, ◌<◌, ◌≡◌, refl, ◌⊎◌, inl, inr, true, false, Option, some, List, [],
  ◌∷◌, ◌++◌, map, arith, ◌>>=◌, length, All,
}
use near_mem_nsg.Struct.{DistanceTask, DcTaskState, finished_pending}
use near_mem_nsg.TaskQueue.{Channel, full, push, empty, pop}
use near_mem_nsg.TaskQueue.Bounds.{entries}
use near_mem_nsg.Dc.{
  Config, Counters, State, advance, reset, visit, scan, no_counts, current, deliver, do_cycle,
}
use near_mem_nsg.Dc.Units.{UnitIsValid, LatencyIsValid, work, scan-valid}

pub total_work : Config → List DcTaskState → ℕ
total_work cfg [] = 0
total_work cfg (u ∷ us) = work cfg u + total_work cfg us

-- `n` cycles of one computer, with nothing else happening to its channels.
unfoldable pub cycles : Config → ℕ → State → Option State
cycles cfg zero s = some s
cycles cfg (suc n) s = do_cycle cfg s >>= λ (r, t). cycles cfg n t

-- The state in which a task has just been accepted.
unfoldable pub accepted : Config → State → DistanceTask → Channel DistanceTask → State
accepted cfg s x rx = record s {
  dc = record s.dc {
    occupy_qe_name = x.qe_name;
    query_id = x.query_id;
    node_id = x.node_id;
    dc_work_finished = false;
    dc_task_state = map (reset cfg) s.dc.dc_task_state;
  };
  distance_receiver = rx;
}

pub do_cycle-accepted :
    (cfg : Config) (s : State) (x : DistanceTask) (rx : Channel DistanceTask)
    → s.dc.dc_work_finished ≡ true
    → pop s.distance_receiver ≡ some (x, rx)
    → do_cycle cfg s ≡ some (true, accepted cfg s x rx)
unfolding do_cycle accepted empty pop
do_cycle-accepted cfg s x rx idle p = ground arith

module _ (cfg : Config) (l : LatencyIsValid cfg) (units : 0 < cfg.num_compute_unit) where
  visit-work-le :
      (n : Counters) (u : DcTaskState) → UnitIsValid u → work cfg (visit cfg n u).1 ≤ work cfg u
  unfolding visit advance
  visit-work-le n u v = ground arith

  scan-work-le :
      (n : Counters) (us : List DcTaskState)
      → All UnitIsValid us
      → total_work cfg (scan cfg n us).1 ≤ total_work cfg us
  unfolding scan total_work
  scan-work-le n [] v = omega arith
  scan-work-le n (u ∷ us) v =
      omega (arith, visit-work-le n u v.0, scan-work-le (visit cfg n u).0 us v.1)

  abbrev Fresh : Counters → Type 0
  Fresh n = (n.counter_minus ≡ 0) × (n.counter_multi ≡ 0)

  -- The first unit that is not done is served; before it nothing changes.
  visit-first :
      (n : Counters) (u : DcTaskState)
      → Fresh n
      → UnitIsValid u
      → ((u.state ≡ finished_pending) × (visit cfg n u ≡ (n, u)))
        ⊎ ((work cfg (visit cfg n u).1 < work cfg u)
            × ((visit cfg n u).0.all_computation_finished ≡ false))
  unfolding visit advance
  visit-first n u f v = ground arith

  visit-unfinished :
      (n : Counters) (u : DcTaskState)
      → n.all_computation_finished ≡ false
      → (visit cfg n u).0.all_computation_finished ≡ false
  unfolding visit
  visit-unfinished n u h = ground arith

  scan-unfinished :
      (n : Counters) (us : List DcTaskState)
      → n.all_computation_finished ≡ false
      → (scan cfg n us).0.all_computation_finished ≡ false
  unfolding scan
  scan-unfinished n [] h = h
  scan-unfinished n (u ∷ us) h = scan-unfinished (visit cfg n u).0 us (visit-unfinished n u h)

  -- Either every unit is done, and a pass changes nothing, or a pass leaves less work.
  scan-progress :
      (n : Counters) (us : List DcTaskState)
      → Fresh n
      → All UnitIsValid us
      → (scan cfg n us ≡ (n, us))
        ⊎ ((total_work cfg (scan cfg n us).1 < total_work cfg us)
            × ((scan cfg n us).0.all_computation_finished ≡ false))
  unfolding scan total_work
  scan-progress n [] f v = inl refl
  scan-progress n (u ∷ us) f v = elim (visit-first n u f v.0) [
    | inl (d, e) ↦ ground (arith, scan-progress n us f v.1)
    | inr (w, e) ↦ inr (
      omega (arith, scan-work-le (visit cfg n u).0 us v.1),
      scan-unfinished (visit cfg n u).0 us e,
    )
  ]

  -- The answer to the current task has been given.
  abbrev pub Answered : State → State → Type 0
  Answered s t =
      (entries t.return_distance_sender ≡ entries s.return_distance_sender ++ current s.dc ∷ [])
      × (t.dc.dc_work_finished ≡ true)

  -- A cycle of a busy computer whose units have work left.
  abbrev pub after_pass : State → State
  after_pass s = record s {
    dc = record s.dc { dc_task_state = (scan cfg no_counts s.dc.dc_task_state).1 };
  }

  busy_step :
      (s : State)
      → s.dc.dc_work_finished ≡ false
      → All UnitIsValid s.dc.dc_task_state
      → full s.return_distance_sender ≡ false
      → ((t : State) × (do_cycle cfg s ≡ some (true, t)) × Answered s t)
        ⊎ ((do_cycle cfg s ≡ some (true, after_pass s))
            × (total_work cfg (after_pass s).dc.dc_task_state < total_work cfg s.dc.dc_task_state))
  unfolding do_cycle deliver push
  busy_step s busy v room = elim (scan-progress no_counts s.dc.dc_task_state (refl, refl) v) [
    | inl e ↦ inl (
      record s {
        dc = record s.dc { dc_task_state = []; dc_work_finished = true };
        return_distance_sender = record s.return_distance_sender {
          task_queue = record { queue = entries s.return_distance_sender ++ current s.dc ∷ [] };
        };
      },
      ground arith,
      ground arith,
    )
    | inr (w, e) ↦ inr (ground arith, w)
  ]

  answer_comes :
      (w : ℕ) (s : State)
      → s.dc.dc_work_finished ≡ false
      → All UnitIsValid s.dc.dc_task_state
      → full s.return_distance_sender ≡ false
      → total_work cfg s.dc.dc_task_state ≤ w
      → (k : ℕ) × (t : State) × (k ≤ w + 1) × (cycles cfg k s ≡ some t) × Answered s t
  unfolding cycles
  answer_comes zero s busy v room h = elim (busy_step s busy v room) [
    | inl (t, e, a) ↦ (1, t, omega arith, rw e, a)
    | inr (e, less) ↦ absurd (omega arith)
  ]
  answer_comes (suc w) s busy v room h = elim (busy_step s busy v room) [
    | inl (t, e, a) ↦ (1, t, omega arith, rw e, a)
    | inr (e, less) ↦
        let (k, t, b, c, a) =
          answer_comes w (after_pass s) busy (scan-valid cfg l no_counts s.dc.dc_task_state v) room
            (omega arith) in
        (suc k, t, omega arith, rw e c, a)
  ]

  total_work-reset :
      (us : List DcTaskState)
      → total_work cfg (map (reset cfg) us) ≡ length us * (2 * cfg.latency_compute_unit + 4)
  unfolding total_work reset
  total_work-reset [] = omega arith
  total_work-reset (u ∷ us) = omega (arith, total_work-reset us)

  pub reset-valid : (us : List DcTaskState) → All UnitIsValid (map (reset cfg) us)
  unfolding reset
  reset-valid [] = tt
  reset-valid (u ∷ us) = (omega arith, reset-valid us)

  -- An idle computer to which a task waits, and which has room to answer, accepts the task and
  -- answers it, for the engine, query and node of the task, and is then idle again: within two
  -- cycles more than its units could need one after the other, each twice the latency and the four
  -- cycles of the additions.
  pub answered_within :
      (s : State) {x : DistanceTask} {rx : Channel DistanceTask}
      → s.dc.dc_work_finished ≡ true
      → pop s.distance_receiver ≡ some (x, rx)
      → full s.return_distance_sender ≡ false
      → (k : ℕ) × (t : State) × (k
          ≤ length s.dc.dc_task_state * (2 * cfg.latency_compute_unit + 4) + 2)
        × (cycles cfg k s ≡ some t)
        × (entries t.return_distance_sender ≡ entries s.return_distance_sender ++ x ∷ [])
        × (t.dc.dc_work_finished ≡ true)
  unfolding cycles accepted
  answered_within s {x = x} {rx = rx} idle p room =
      let (k, t, b, c, a) =
        answer_comes (total_work cfg (map (reset cfg) s.dc.dc_task_state)) (accepted cfg s x rx)
          refl (reset-valid s.dc.dc_task_state) room (omega arith) in
      (
        suc k,
        t,
        omega (arith, total_work-reset s.dc.dc_task_state),
        rw (do_cycle-accepted cfg s x rx idle p) c,
        a.0,
        a.1,
      )
