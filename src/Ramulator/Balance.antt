-- ===== src/Ramulator/Balance.antt =====
-- Nothing is lost in src/ramulator_wrapper.cc: over a memory that calls back what it took, each
-- read task becomes one answer.
use mathlib.Core.List.{Perm, filter_map, perm_append_comm, map-append}
use mathlib.Core.List.Perm
use near_mem_nsg.Base.{
  ℕ, ◌≡◌, refl, sym, subst, ◌⊎◌, inl, inr, Bool, true, false, Option, none, some, List, [], ◌∷◌,
  ◌++◌, map, append_assoc, arith, Bool-cases, >>=-eq-some, inc64,
}
use near_mem_nsg.Struct.{MemReadTask}
use near_mem_nsg.TaskQueue.{Channel, push, pop}
use near_mem_nsg.TaskQueue.Bounds.{entries, receiver_cases}
use near_mem_nsg.TaskQueue.Fifo.{entries-pop}
use near_mem_nsg.Ramulator.{
  Request, read, write, MemoryBase, Wrapper, State, tick, request, answer, send_next, answer_next,
  do_cycle,
}
use near_mem_nsg.Ramulator.Order.{read_addr, read_addrs, call_backs-queue, call_backs-mem}

-- What the wrapper relies on: `inside` are the requests that the memory holds. It holds one more
-- when it takes a request, the same when it refuses one, and those that it calls back leave it.
pub record IsFaithful {M : Type 0} (m : MemoryBase M) (inside : M → List Request) : Type 0 where
  pub takes : (r : Request) (x y : M) → m.send r x ≡ (true, y) → Perm (r ∷ inside x) (inside y)
  pub refuses : (r : Request) (x y : M) → m.send r x ≡ (false, y) → Perm (inside x) (inside y)
  pub ticks : (x : M) → Perm (inside x) ((m.tick x).0 ++ inside (m.tick x).1)

-- The addresses of the reads among the tasks of a channel.
abbrev pub task_addrs : List MemReadTask → List ℕ
task_addrs ts = read_addrs (map request ts)

abbrev pub answer_addrs : List MemReadTask → List ℕ
answer_addrs = map (λ t. t.addr)

read_addrs-append : (rs ss : List Request) → read_addrs (rs ++ ss) ≡ read_addrs rs ++ read_addrs ss
unfolding read_addrs
read_addrs-append [] ss = refl
read_addrs-append (r ∷ rs) ss =
    cc (read_addrs-append rs ss, append_assoc (read_addr r) (read_addrs rs) (read_addrs ss))

abbrev read_addr? : Request → Option ℕ
read_addr? r = elim r.type [ read ↦ some r.addr | write ↦ none ]

read_addrs-filter_map : (rs : List Request) → read_addrs rs ≡ filter_map read_addr? rs
unfolding read_addrs filter_map
read_addrs-filter_map [] = refl
read_addrs-filter_map (r ∷ rs) = ground (arith, read_addrs-filter_map rs)

read_addrs-perm : {rs ss : List Request} → Perm rs ss → Perm (read_addrs rs) (read_addrs ss)
read_addrs-perm {rs} {ss} p =
    rw (read_addrs-filter_map rs, read_addrs-filter_map ss) (Perm.filter_map read_addr? p)

module _ {M : Type 0} (inside : M → List Request) where
  -- All reads in the system, by address: answered, called back, in the memory, and waiting.
  abbrev pub reads : State M → List ℕ
  reads s =
      answer_addrs (entries s.out_queue)
      ++ (s.wrapper.temp_receive_queue
          ++ (read_addrs (inside s.wrapper.mem) ++ task_addrs (entries s.in_queue)))

  -- What `send_next` does, by whether the memory takes the head of the channel.
  abbrev pub Sent : State M → State M → Type 0
  Sent s t =
      (t ≡ s)
      ⊎ ((mem : M) × Perm (inside s.wrapper.mem) (inside mem)
          × (t ≡ record s { wrapper = record s.wrapper { mem = mem } }))
      ⊎ ((x : MemReadTask) × (q : Channel MemReadTask) × (pop s.in_queue ≡ some (x, q))
          × (t.in_queue ≡ q)
          × (t.out_queue ≡ s.out_queue)
          × (t.wrapper.temp_receive_queue ≡ s.wrapper.temp_receive_queue)
          × (t.wrapper.outgoing_reqs ≡ inc64 s.wrapper.outgoing_reqs)
          × Perm (request x ∷ inside s.wrapper.mem) (inside t.wrapper.mem))

module _ {M : Type 0} (m : MemoryBase M) (inside : M → List Request)
    (ok : IsFaithful m inside) where
  pub send_next-Sent : (s t : State M) → send_next m s ≡ some t → Sent inside s t
  unfolding send_next
  send_next-Sent s t e = elim (receiver_cases s.in_queue) [
    | inl nothing ↦ inl (ground arith)
    | inr (x, q, more, g, p) ↦ elim (Bool-cases (m.send (request x) s.wrapper.mem).0) [
      | inl taken ↦ inr (
          inr (
            x,
            q,
            p,
            ground arith,
            ground arith,
            ground arith,
            ground arith,
            subst (λ y. Perm (request x ∷ inside s.wrapper.mem) (inside y)) (ground arith)
                (ok.takes (request x) s.wrapper.mem _
                  (λ i. (taken i, (m.send (request x) s.wrapper.mem).1))),
          ))
      | inr refused ↦ inr (
          inl (
            (m.send (request x) s.wrapper.mem).1,
            ok.refuses (request x) s.wrapper.mem _
                (λ i. (refused i, (m.send (request x) s.wrapper.mem).1)),
            ground arith,
          ))
    ]
  ]

  Sent-reads : (s t : State M) → Sent inside s t → Perm (reads inside s) (reads inside t)
  unfolding read_addrs
  Sent-reads s t (inl e) = rw e (Perm.refl (reads inside s))
  Sent-reads s t (inr (inl (mem, p, e))) =
      rw e (Perm.append_left _ (Perm.append_left _ (Perm.append_right _ (read_addrs-perm p))))
  Sent-reads s t (inr (inr (x, q, p, in', out', temp, _, perm))) =
      rw (in', out', temp, entries-pop s.in_queue p)
        (Perm.append_left _ (Perm.append_left _ (Perm.trans swapped grown)))
    where
      held : List ℕ
      held = read_addrs (inside s.wrapper.mem)

      rest : List ℕ
      rest = task_addrs (entries q)

      swapped :
          Perm (held ++ (read_addr (request x) ++ rest)) ((read_addr (request x) ++ held) ++ rest)
      swapped =
          rw (← append_assoc held (read_addr (request x)) rest)
            (Perm.append_right rest (perm_append_comm held (read_addr (request x))))

      grown :
          Perm ((read_addr (request x) ++ held) ++ rest) (read_addrs (inside t.wrapper.mem) ++ rest)
      grown = Perm.append_right rest (read_addrs-perm perm)

  answer_next-reads : (s t : State M) → answer_next s ≡ some t → reads inside s ≡ reads inside t
  unfolding answer_next push
  answer_next-reads s t e = by_temp s.wrapper.temp_receive_queue refl
    where
      by_temp :
          (temp : List ℕ) → s.wrapper.temp_receive_queue ≡ temp → reads inside s ≡ reads inside t
      by_temp [] h = ground arith
      by_temp (addr ∷ rest) h = ground (
        arith,
        map-append (λ (x : MemReadTask). x.addr) (entries s.out_queue) (answer addr ∷ []),
        append_assoc (answer_addrs (entries s.out_queue)) (addr ∷ [])
            (rest ++ (read_addrs (inside s.wrapper.mem) ++ task_addrs (entries s.in_queue))),
      )

  tick-reads :
      (s : State M) (w : Wrapper M)
      → tick m s.wrapper ≡ some w
      → Perm (reads inside s) (reads inside (record s { wrapper = w }))
  unfolding tick
  tick-reads s w e =
      rw (call_backs-queue done start w e, call_backs-mem done start w e)
        (Perm.append_left (answer_addrs (entries s.out_queue)) moved)
    where
      temp : List ℕ
      temp = s.wrapper.temp_receive_queue

      rest : List ℕ
      rest = task_addrs (entries s.in_queue)

      done : List Request
      done = (m.tick s.wrapper.mem).0

      start : Wrapper M
      start = record s.wrapper {
        cycle_in_memory = inc64 s.wrapper.cycle_in_memory;
        mem = (m.tick s.wrapper.mem).1;
      }

      back : List ℕ
      back = read_addrs done

      held : List ℕ
      held = read_addrs (inside (m.tick s.wrapper.mem).1)

      split : Perm (read_addrs (inside s.wrapper.mem)) (back ++ held)
      split =
          rw (← read_addrs-append done (inside (m.tick s.wrapper.mem).1))
            (read_addrs-perm (ok.ticks s.wrapper.mem))

      moved :
          Perm
            (temp ++ (read_addrs (inside s.wrapper.mem) ++ rest))
            ((temp ++ back) ++ (held ++ rest))
      moved =
          rw (append_assoc temp back (held ++ rest), ← append_assoc back held rest)
            (Perm.append_left temp (Perm.append_right rest split))

  -- Over a memory that calls back exactly what it took, a cycle keeps the reads of the system, by
  -- address and number: each read task that leaves the incoming channel is in the memory, called
  -- back or answered, and no answer is made up.
  pub do_cycle-reads :
      (s t : State M) {busy : Bool}
      → do_cycle m s ≡ some (busy, t)
      → Perm (reads inside s) (reads inside t)
  unfolding do_cycle
  do_cycle-reads s t e =
      let (s', p, q) = >>=-eq-some (send_next m s) _ e in
      let (s'', p', q') = >>=-eq-some (answer_next s') _ q in
      let (w, p'', q'') = >>=-eq-some (tick m s''.wrapper) _ q' in
      let last : record s'' { wrapper = w } ≡ t = ground arith in
      subst (λ u. Perm (reads inside s) (reads inside u)) last
        (Perm.trans (Sent-reads s s' (send_next-Sent s s' p)) (
          subst (λ l. Perm l (reads inside (record s'' { wrapper = w })))
            (sym (answer_next-reads s' s'' p')) (tick-reads s'' w p'')))
