-- ===== src/Ramulator/Outgoing.antt =====
-- The count of outgoing requests of src/ramulator_wrapper.cc never fails its assertion.
use near_mem_nsg.Base.{
  ◌+◌, ◌^◌, ◌≤◌, ◌<◌, ◌≡◌, sym, ap, ◌∙◌, inl, inr, Bool, not, some, List, arith, Option-cases,
  length, length-append, inc64, length-perm,
}
use near_mem_nsg.TaskQueue.{push, empty}
use near_mem_nsg.TaskQueue.Bounds.{receiver_cases}
use near_mem_nsg.Ramulator.{
  Request, MemoryBase, Wrapper, State, tick, send_next, answer_next, do_cycle,
}
use near_mem_nsg.Ramulator.Order.{call_backs-outgoing}
use near_mem_nsg.Ramulator.Balance.{IsFaithful, Sent, send_next-Sent}

module _ {M : Type 0} (inside : M → List Request) where
  -- The count of outgoing requests is the number of requests in the memory.
  abbrev pub Balanced : State M → Type 0
  Balanced s =
      (s.wrapper.outgoing_reqs ≡ length (inside s.wrapper.mem))
      × (length (inside s.wrapper.mem) + 1 < 2 ^ 63)

module _ {M : Type 0} (m : MemoryBase M) (inside : M → List Request)
    (ok : IsFaithful m inside) where
  send_next-total : (s : State M) → (t : State M) × (send_next m s ≡ some t)
  unfolding send_next
  send_next-total s = elim (Option-cases (send_next m s)) [
    | inl e ↦ elim (receiver_cases s.in_queue) [
      | inl nothing ↦ absurd (ground arith)
      | inr (x, q, more, g, p) ↦ absurd (ground arith)
    ]
    | inr (t, e) ↦ (t, e)
  ]

  Sent-outgoing :
      (s t : State M)
      → Balanced inside s
      → Sent inside s t
      → (t.wrapper.outgoing_reqs ≡ length (inside t.wrapper.mem))
        × (t.wrapper.outgoing_reqs < 2 ^ 63)
  Sent-outgoing s t b (inl e) = ground arith
  Sent-outgoing s t b (inr (inl (mem, p, e))) = ground (arith, length-perm p)
  Sent-outgoing s t b (inr (inr (x, q, p, in', out', temp, n, perm))) =
      ground (arith, length-perm perm)

  answer_next-total :
      (s : State M)
      → (t : State M) × (answer_next s ≡ some t)
        × (t.wrapper.outgoing_reqs ≡ s.wrapper.outgoing_reqs)
        × (t.wrapper.mem ≡ s.wrapper.mem)
  unfolding answer_next push
  answer_next-total s = elim (Option-cases (answer_next s)) [
    | inl e ↦ absurd (ground arith)
    | inr (t, e) ↦ (t, e, ground arith, ground arith)
  ]

  tick-total :
      (w : Wrapper M)
      → w.outgoing_reqs ≡ length (inside w.mem)
      → w.outgoing_reqs < 2 ^ 63
      → (v : Wrapper M) × (tick m w ≡ some v)
        × (v.outgoing_reqs ≡ length (inside v.mem))
        × (length (inside v.mem) ≤ length (inside w.mem))
  unfolding tick
  tick-total w b h =
      let (v, e, n, same) = call_backs-outgoing done start h (omega (arith, sizes)) in
      let kept = ap (λ y. length (inside y)) same in
      (v, e, omega (arith, sizes, n) ∙ sym kept, omega (arith, sizes, kept))
    where
      done : List Request
      done = (m.tick w.mem).0

      start : Wrapper M
      start = record w { cycle_in_memory = inc64 w.cycle_in_memory; mem = (m.tick w.mem).1 }

      sizes : length (inside w.mem) ≡ length done + length (inside (m.tick w.mem).1)
      sizes = length-perm (ok.ticks w.mem) ∙ length-append done (inside (m.tick w.mem).1)

  Sent-held :
      (s t : State M)
      → Sent inside s t
      → length (inside t.wrapper.mem) ≤ length (inside s.wrapper.mem) + 1
  Sent-held s t (inl e) = ground arith
  Sent-held s t (inr (inl (mem, p, e))) = ground (arith, length-perm p)
  Sent-held s t (inr (inr (x, q, p, in', out', temp, n, perm))) = omega (arith, length-perm perm)

  -- Below the bound of the counter, a cycle does not fault, keeps the count, and the memory holds at
  -- most one request more.
  pub do_cycle-held :
      (s : State M)
      → Balanced inside s
      → (busy : Bool) × (t : State M) × (do_cycle m s ≡ some (busy, t))
        × (t.wrapper.outgoing_reqs ≡ length (inside t.wrapper.mem))
        × (length (inside t.wrapper.mem) ≤ length (inside s.wrapper.mem) + 1)
  unfolding do_cycle
  do_cycle-held s b =
      let (s', p) = send_next-total s in
      let sent = send_next-Sent m inside ok s s' p in
      let (n, l) = Sent-outgoing s s' b sent in
      let (s'', q, n', same) = answer_next-total s' in
      let (w, r, n'', fewer) = tick-total s''.wrapper (ground arith) (ground arith) in
      let held = Sent-held s s' sent in
      let rest = ap (λ y. length (inside y)) same in
      (not (empty s.in_queue), record s'' { wrapper = w }, ground arith, n'', omega arith)

  -- Over such a memory, while it holds fewer than 2 ^ 63 - 1 requests and the count of outgoing
  -- requests is the number that it holds, a cycle fails no assertion and no pop, and the count is
  -- again the number that the memory holds.
  pub do_cycle-outgoing :
      (s : State M)
      → Balanced inside s
      → (busy : Bool) × (t : State M) × (do_cycle m s ≡ some (busy, t))
        × (t.wrapper.outgoing_reqs ≡ length (inside t.wrapper.mem))
  do_cycle-outgoing s b = let (busy, t, p, n, held) = do_cycle-held s b in (busy, t, p, n)
