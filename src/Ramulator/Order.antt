-- ===== src/Ramulator/Order.antt =====
-- The answers of src/ramulator_wrapper.cc leave in the order in which the memory calls back.
use near_mem_nsg.Base.{
  ℕ, ◌+◌, ◌^◌, ◌≤◌, ◌<◌, ◌≡◌, refl, ◌∙◌, inl, inr, some, List, [], ◌∷◌, ◌++◌, append-nil,
  append_assoc, arith, Option-cases, >>=-eq-some, length,
}
use near_mem_nsg.Ramulator.{Request, read, write, Wrapper, call_back, call_backs}

abbrev pub read_addr : Request → List ℕ
read_addr r = elim r.type [ read ↦ r.addr ∷ [] | write ↦ [] ]

-- The addresses of the reads in a list of requests.
unfoldable pub read_addrs : List Request → List ℕ
read_addrs [] = []
read_addrs (r ∷ rs) = read_addr r ++ read_addrs rs

module _ {M : Type 0} where
  call_back-queue :
      (r : Request) (w v : Wrapper M)
      → call_back r w ≡ some v
      → v.temp_receive_queue ≡ w.temp_receive_queue ++ read_addr r
  unfolding call_back
  call_back-queue r w v e = ground (arith, append-nil w.temp_receive_queue)

  pub call_back-outgoing :
      (r : Request) (w : Wrapper M)
      → w.outgoing_reqs < 2 ^ 63
      → 0 < w.outgoing_reqs
      → (v : Wrapper M) × (call_back r w ≡ some v)
        × (v.outgoing_reqs + 1 ≡ w.outgoing_reqs)
        × (v.mem ≡ w.mem)
  unfolding call_back
  call_back-outgoing r w b h = elim (Option-cases (call_back r w)) [
    | inl e ↦ absurd (ground arith)
    | inr (v, e) ↦ (v, e, ground arith, ground arith)
  ]

  pub call_backs-queue :
      (rs : List Request) (w v : Wrapper M)
      → call_backs rs w ≡ some v
      → v.temp_receive_queue ≡ w.temp_receive_queue ++ read_addrs rs
  unfolding call_backs read_addrs
  call_backs-queue [] w v e = ground (arith, append-nil w.temp_receive_queue)
  call_backs-queue (r ∷ rs) w v e =
      let (u, p, q) = >>=-eq-some (call_back r w) _ e in
      cc (
        call_backs-queue rs u v q,
        call_back-queue r w u p,
        append_assoc w.temp_receive_queue (read_addr r) (read_addrs rs),
      )

  pub call_backs-outgoing :
      (rs : List Request) (w : Wrapper M)
      → w.outgoing_reqs < 2 ^ 63
      → length rs ≤ w.outgoing_reqs
      → (v : Wrapper M) × (call_backs rs w ≡ some v)
        × (v.outgoing_reqs + length rs ≡ w.outgoing_reqs)
        × (v.mem ≡ w.mem)
  unfolding call_backs
  call_backs-outgoing [] w b h = (w, refl, omega arith, refl)
  call_backs-outgoing (r ∷ rs) w b h =
      let (u, p, q, m) = call_back-outgoing r w b (omega arith) in
      let (v, p', q', m') = call_backs-outgoing rs u (omega arith) (omega arith) in
      (v, rw p p', omega arith, m' ∙ m)

  pub call_backs-mem :
      (rs : List Request) (w v : Wrapper M) → call_backs rs w ≡ some v → v.mem ≡ w.mem
  unfolding call_backs call_back
  call_backs-mem [] w v e = ground arith
  call_backs-mem (r ∷ rs) w v e =
      let (u, p, q) = >>=-eq-some (call_back r w) _ e in ground (arith, call_backs-mem rs u v q)
