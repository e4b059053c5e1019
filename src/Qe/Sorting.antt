-- ===== src/Qe/Sorting.antt =====
-- The flags `all_sort_ready` and `all_distance_ready` of `query_pending_distance` in src/qe.cc.
use near_mem_nsg.Base.{
  ℕ, ◌≡◌, refl, subst, ◌∙◌, ◌⊎◌, inl, inr, Bool, true, false, not, ◌&&◌, Option, none, some, List,
  arith, ◌==◌, ==_iff, Bool-cases, Option-cases,
}
use near_mem_nsg.Struct.{
  WhileRequestState, read_not_send, read_inflight, read_finished, dc_inflight, dc_finished,
  sort_finished, QeMemState, QeDcTask,
}
use near_mem_nsg.TaskQueue.{full, push}
use near_mem_nsg.TaskQueue.Bounds.{receiver_cases}
use near_mem_nsg.Qe.Loop.{Pass, for_each, ◌>>>◌}
use near_mem_nsg.Qe.Rule.{for_each-rule}
use near_mem_nsg.Qe.Init.{matches}
use near_mem_nsg.Qe.Vector.{DistanceScan, vec_visit}
use near_mem_nsg.Qe.Distance.{task_reads, mark_read, distance_part, sort_part}

-- Every distance is known so far, and every insertion made.
abbrev pub settled : DistanceScan → Bool
settled s = s.all_sort_ready && s.all_distance_ready

-- Code that goes on after other code: both parts have gone on.
then-cases {ℓ κ} :
    {A : Type ℓ} {S : Type κ} (m : Option (Pass A S)) (k : A → S → Option (Pass A S)) (r : Pass A S)
    → (m >>> k) ≡ some r
    → r.returned ≡ false
    → (q : Pass A S) × (m ≡ some q) × (q.returned ≡ false) × (k q.value q.state ≡ some r)
then-cases none k r h on = absurd (ground arith)
then-cases (some q) k r h on = elim (Bool-cases q.returned) [
  | inl back ↦ absurd (ground arith)
  | inr going ↦ (q, refl, going, ground arith)
]

-- A task is inserted already, or has its distance and no comparisons left to wait for.
abbrev pub CanEnd : QeDcTask → Type 0
CanEnd t = (t.state ≡ sort_finished) ⊎ ((t.state ≡ dc_finished) × (t.remaining_compare_cycle ≡ 0))

-- Neither the state of a task nor the cycles of its insertion change.
abbrev pub Same : QeDcTask → QeDcTask → Type 0
Same t x = (x.state ≡ t.state) × (x.remaining_compare_cycle ≡ t.remaining_compare_cycle)

-- They stay, but for the end of the reads.
abbrev pub SameOrRead : QeDcTask → QeDcTask → Type 0
SameOrRead t x =
    ((x.state ≡ t.state) ⊎ (x.state ≡ read_finished))
    × (x.remaining_compare_cycle ≡ t.remaining_compare_cycle)

module _ (current_cycle qe_name query_id : ℕ) where
  -- The reads of a vector leave the two flags.
  vec_visit-settled :
      (node_id : ℕ) (x : QeMemState) (s : DistanceScan) (r : Pass QeMemState DistanceScan)
      → vec_visit current_cycle qe_name node_id x s ≡ some r
      → settled r.state ≡ settled s
  unfolding vec_visit
  vec_visit-settled node_id x s r h = by_read x.state refl
    where
      by_read : (st : WhileRequestState) → x.state ≡ st → settled r.state ≡ settled s
      by_read read_finished e = ground arith
      by_read read_not_send e = elim (Bool-cases (full s.ports.mem)) [
        | inl f ↦ ground arith
        | inr f ↦
            elim (Option-cases (
              push
                (record {
                  addr = x.mem_read_addr;
                  is_read = true;
                  qe_name = qe_name;
                  node_id = node_id;
                  is_edge_table = false;
                })
                s.ports.mem)) [ inl faults ↦ absurd (ground arith) | inr (c, g) ↦ ground arith ]
      ]
      by_read read_inflight e = elim (receiver_cases s.ports.mem_ret) [
        | inl f ↦ ground arith
        | inr (y, c, f, g, q) ↦ elim (Bool-cases (y.addr == x.mem_read_addr)) [
          | inl own ↦ ground arith
          | inr other ↦ ground arith
        ]
      ]
      by_read dc_inflight e = ground arith
      by_read dc_finished e = ground arith
      by_read sort_finished e = ground arith

  pub reads-settled :
      (t : QeDcTask) (s : DistanceScan) (r : Pass QeDcTask DistanceScan)
      → task_reads current_cycle qe_name query_id t s ≡ some r
      → settled r.state ≡ settled s
  unfolding task_reads
  reads-settled t s r h = elim (Option-cases loop) [
    | inl faults ↦ absurd (ground arith)
    | inr (p, e) ↦
        subst (λ q. settled q.state ≡ settled s) (same p e)
          (for_each-rule (vec_visit current_cycle qe_name t.node_id) (λ _ u. settled u ≡ settled s)
            (λ x u q k g. vec_visit-settled t.node_id x u q g ∙ k) t.mem_read_state
            (record s { vector_read_done = true }) p refl e)
  ]
    where
      loop : Option (Pass (List QeMemState) DistanceScan)
      loop =
          for_each (vec_visit current_cycle qe_name t.node_id) t.mem_read_state
            (record s { vector_read_done = true })

      same :
          (p : Pass (List QeMemState) DistanceScan)
          → loop ≡ some p
          → record {
            returned = p.returned;
            value = record t { mem_read_state = p.value };
            state = p.state;
          }
            ≡ r
      same p e = ground arith

  pub reads-Same :
      (t : QeDcTask) (s : DistanceScan) (r : Pass QeDcTask DistanceScan)
      → task_reads current_cycle qe_name query_id t s ≡ some r
      → Same t r.value
  unfolding task_reads
  reads-Same t s r h =
      elim (Option-cases (
        for_each (vec_visit current_cycle qe_name t.node_id) t.mem_read_state
          (record s { vector_read_done = true }))) [
            | inl faults ↦ absurd (ground arith)
            | inr (p, e) ↦ (ground arith, ground arith)
          ]

  pub mark-SameOrRead :
      (t : QeDcTask) (s : DistanceScan) (r : Pass QeDcTask DistanceScan) (st : WhileRequestState)
      → mark_read current_cycle qe_name query_id t s st ≡ some r
      → SameOrRead t r.value
  unfolding mark_read
  mark-SameOrRead t s r read_inflight h = elim (Bool-cases s.vector_read_done) [
    | inl done ↦ (inr (ground arith), ground arith)
    | inr wait ↦ (inl (ground arith), ground arith)
  ]
  mark-SameOrRead t s r _ h = (inl (ground arith), ground arith)

  pub mark-settled :
      (t : QeDcTask) (s : DistanceScan) (r : Pass QeDcTask DistanceScan) (st : WhileRequestState)
      → mark_read current_cycle qe_name query_id t s st ≡ some r
      → settled r.state ≡ settled s
  unfolding mark_read
  mark-settled t s r read_inflight h = elim (Bool-cases s.vector_read_done) [
    | inl done ↦ ground arith
    | inr wait ↦ ground arith
  ]
  mark-settled t s r _ h = ground arith

  -- A task that goes on past its distance, with the flags still set, has it.
  pub distance-settled :
      (t : QeDcTask) (s : DistanceScan) (r : Pass QeDcTask DistanceScan)
      → distance_part current_cycle qe_name query_id t s t.state ≡ some r
      → r.returned ≡ false
      → settled r.state ≡ true
      → (settled s ≡ true)
        × ((r.value.state ≡ dc_finished) ⊎ (r.value.state ≡ sort_finished))
        × Same t r.value
  unfolding distance_part
  distance-settled t s r h on ready = by_state t.state refl
    where
      by_state :
          (st : WhileRequestState)
          → t.state ≡ st
          → (settled s ≡ true)
            × ((r.value.state ≡ dc_finished) ⊎ (r.value.state ≡ sort_finished))
            × Same t r.value
      by_state dc_finished e = (ground arith, inl (ground arith), (ground arith, ground arith))
      by_state sort_finished e = (ground arith, inr (ground arith), (ground arith, ground arith))
      by_state read_finished e = elim (Bool-cases (full s.ports.distance)) [
        | inl f ↦ absurd (ground arith)
        | inr f ↦
            elim (Option-cases (
              push (record { qe_name = qe_name; query_id = query_id; node_id = t.node_id })
                s.ports.distance)) [
                  | inl faults ↦ absurd (ground arith)
                  | inr (c, g) ↦ absurd (ground arith)
                ]
      ]
      by_state dc_inflight e = elim (receiver_cases s.ports.return_distance) [
        | inl f ↦ absurd (ground arith)
        | inr (y, c, f, g, q) ↦ elim (Bool-cases (matches qe_name query_id t.node_id y)) [
          | inl own ↦ absurd (ground arith)
          | inr other ↦ absurd (ground arith)
        ]
      ]
      by_state read_not_send e = absurd (ground arith)
      by_state read_inflight e = absurd (ground arith)

  pub sort-settled_before :
      (t : QeDcTask) (s : DistanceScan) (r : Pass QeDcTask DistanceScan) (st : WhileRequestState)
      → sort_part current_cycle qe_name query_id t s st ≡ some r
      → settled r.state ≡ true
      → settled s ≡ true
  unfolding sort_part
  sort-settled_before t s r dc_finished h ready =
      elim (Bool-cases (t.remaining_compare_cycle == 0)) [
        | inl now ↦ ground arith
        | inr wait ↦ elim (Bool-cases (not s.compare_busy && s.prev_sort_finish)) [
          | inl turn ↦ absurd (ground arith)
          | inr later ↦ absurd (ground arith)
        ]
      ]
  sort-settled_before t s r _ h ready = ground arith

  -- A task that has its distance and leaves the flags set can end, and is marked as inserted.
  pub sort-settled :
      (t : QeDcTask) (s : DistanceScan) (r : Pass QeDcTask DistanceScan)
      → (t.state ≡ dc_finished) ⊎ (t.state ≡ sort_finished)
      → sort_part current_cycle qe_name query_id t s t.state ≡ some r
      → settled r.state ≡ true
      → (r.value.state ≡ sort_finished) × CanEnd t
  unfolding sort_part
  sort-settled t s r (inr e) h ready = (ground arith, inl e)
  sort-settled t s r (inl e) h ready = elim (Bool-cases (t.remaining_compare_cycle == 0)) [
    | inl now ↦ (ground arith, inr (e, (==_iff t.remaining_compare_cycle 0).0 now))
    | inr wait ↦ elim (Bool-cases (not s.compare_busy && s.prev_sort_finish)) [
      | inl turn ↦ absurd (ground arith)
      | inr later ↦ absurd (ground arith)
    ]
  ]

  -- Code that leaves the two flags set has found them so, and leaves a task with a property.
  abbrev pub Settles :
      DistanceScan → Option (Pass QeDcTask DistanceScan) → (QeDcTask → Type 0) → Type 0
  Settles s m P =
      (r : Pass QeDcTask DistanceScan)
      → m ≡ some r
      → r.returned ≡ false
      → settled r.state ≡ true
      → (settled s ≡ true) × P r.value

  pub settles_then :
      (s : DistanceScan) (P Q : QeDcTask → Type 0)
      → (m : Option (Pass QeDcTask DistanceScan))
      → (k : QeDcTask → DistanceScan → Option (Pass QeDcTask DistanceScan)) → Settles s m P
      → ((t : QeDcTask) (u : DistanceScan) → Settles u (k t u) (λ x. P t → Q x))
      → Settles s (m >>> k) Q
  settles_then s P Q m k first next r h on ready =
      let (q, before, going, after) = then-cases m k r h on in
      let (between, kept) = next q.value q.state r after on ready in
      let (start, p) = first q before going between in (start, kept p)
