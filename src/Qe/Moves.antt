-- ===== src/Qe/Moves.antt =====
-- What a query engine of src/qe.cc does with its channels in one cycle.
use near_mem_nsg.Base.{
  ℕ, ◌≡◌, refl, subst, inl, inr, Bool, true, false, Option, none, some, List, Bool-cases, ◌>>=◌,
}
use near_mem_nsg.Struct.{NsgTask, DistanceTask, MemReadTask}
use near_mem_nsg.TaskQueue.{Channel, push, pop}
use near_mem_nsg.Qe.State.{Ports}
use near_mem_nsg.Qe.Loop.{Pass, ◌>>>◌, for_each}
use near_mem_nsg.Qe.Rule.{for_each-rule}

-- One operation on one channel: a distance task or a read sent in the engine's own name, a result
-- of the engine's own query taken, a returned read taken, or a query taken.
pub data Move (qe_name query_id : ℕ) (p : Ports) : Ports → Type 0 where
  send_distance :
      (t : DistanceTask) (c : Channel DistanceTask)
      → push t p.distance ≡ some c
      → t.qe_name ≡ qe_name
      → t.query_id ≡ query_id
      → Move qe_name query_id p (record p { distance = c })
  take_distance :
      (t : DistanceTask) (c : Channel DistanceTask)
      → pop p.return_distance ≡ some (t, c)
      → t.qe_name ≡ qe_name
      → t.query_id ≡ query_id
      → Move qe_name query_id p (record p { return_distance = c })
  send_read :
      (t : MemReadTask) (c : Channel MemReadTask)
      → push t p.mem ≡ some c
      → t.is_read ≡ true
      → t.qe_name ≡ qe_name
      → Move qe_name query_id p (record p { mem = c })
  take_read :
      (t : MemReadTask) (c : Channel MemReadTask)
      → pop p.mem_ret ≡ some (t, c)
      → Move qe_name query_id p (record p { mem_ret = c })
  take_query :
      (t : NsgTask) (c : Channel NsgTask)
      → pop p.tasks ≡ some (t, c)
      → Move qe_name query_id p (record p { tasks = c })

-- A loop has left the channels alone, or has returned after one operation.
abbrev pub Moved : ℕ → ℕ → Ports → Bool → Ports → Type 0
Moved qe_name query_id p false q = q ≡ p
Moved qe_name query_id p true q = Move qe_name query_id p q

module _ {ℓ} {A : Type ℓ} {S : Type 0} (ports : S → Ports) (qe_name query_id : ℕ) where
  abbrev pub PassMoves : Ports → Option (Pass A S) → Type 0
  PassMoves p none = Unit
  PassMoves p (some r) = Moved qe_name query_id p r.returned (ports r.state)

  -- The two kinds of round: one that goes on, and one that performs an operation and returns.
  pub moves_by {κ} :
      {C : Type κ} (p : Ports) (m : Option C) (f : C → Option (Pass A S))
      → ((c : C) → m ≡ some c → PassMoves p (f c))
      → PassMoves p (m >>= f)
  moves_by p none f h = tt
  moves_by p (some c) f h = h c refl

  -- A part of a round, and the part that follows it.
  pub moves_then :
      (p : Ports) (m : Option (Pass A S)) (k : A → S → Option (Pass A S))
      → PassMoves p m
      → ((x : A) (s : S) → PassMoves (ports s) (k x s))
      → PassMoves p (m >>> k)
  moves_then p none k h g = tt
  moves_then p (some r) k h g = elim (Bool-cases r.returned) [
    | inl back ↦ rw back (subst (λ b. Moved qe_name query_id p b (ports r.state)) back h)
    | inr on ↦ rw on (
        subst (λ q. PassMoves q (k r.value r.state))
          (subst (λ b. Moved qe_name query_id p b (ports r.state)) on h) (g r.value r.state))
  ]

module _ {ℓ} {A : Type ℓ} {S : Type 0} (ports : S → Ports) (qe_name query_id : ℕ) where
  -- A loop whose rounds behave so behaves so.
  pub for_each-Moves :
      (body : A → S → Option (Pass A S))
      → ((x : A) (s : S) → PassMoves ports qe_name query_id (ports s) (body x s))
      → (xs : List A) (s : S) (p : Pass (List A) S) → for_each body xs s ≡ some p
      → Moved qe_name query_id (ports s) p.returned (ports p.state)
  for_each-Moves body rounds xs s p =
      for_each-rule body (λ b t. Moved qe_name query_id (ports s) b (ports t)) step xs s p refl
    where
      step :
          (x : A) (t : S) (r : Pass A S)
          → ports t ≡ ports s
          → body x t ≡ some r
          → Moved qe_name query_id (ports s) r.returned (ports r.state)
      step x t r same e =
          subst (λ q. Moved qe_name query_id q r.returned (ports r.state)) same
            (subst (PassMoves ports qe_name query_id (ports t)) e (rounds x t))
