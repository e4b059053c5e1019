-- ===== src/TaskQueue/Fifo.antt =====
-- Order and capacity over whole histories of the clients of a channel of src/task_queue.h.
use near_mem_nsg.Base.{
  ◌≡◌, subst, ◌↔◌, true, Option, none, some, List, [], ◌∷◌, ◌++◌, append-nil, append_assoc, arith,
  ◌>>=◌, >>=-eq-some, length,
}
use near_mem_nsg.TaskQueue.Ends.{Channel, full, push, get, empty, pop}
use near_mem_nsg.TaskQueue.Bounds.{entries, IsBounded, push-IsBounded, pop-IsBounded}

-- What the two ends may do: push a task, or pop one.
pub data Op {ℓ} (A : Type ℓ) : Type ℓ where
  send : A → Op A
  receive : Op A

module _ {ℓ} {A : Type ℓ} where
  -- A history of calls, with all that was received.
  unfoldable pub run : List (Op A) → Channel A → Option (List A × Channel A)
  run [] c = some ([], c)
  run (send x ∷ ops) c = push x c >>= run ops
  run (receive ∷ ops) c = do (x, d) ← pop c; (out, e) ← run ops d; some (x ∷ out, e)

  -- What a history pushes.
  abbrev pub sent : List (Op A) → List A
  sent [] = []
  sent (send x ∷ ops) = x ∷ sent ops
  sent (receive ∷ ops) = sent ops

  pub entries-push :
      (x : A) (c : Channel A) {d : Channel A} → push x c ≡ some d → entries d ≡ entries c ++ x ∷ []
  unfolding push
  entries-push x c e = ground arith

  pub entries-pop :
      (c : Channel A) {x : A} {d : Channel A} → pop c ≡ some (x, d) → entries c ≡ x ∷ entries d
  unfolding pop
  entries-pop c e = ground arith

  -- In any history that does not fault, what was received, followed by what is still queued, is
  -- what was queued at first, followed by what was sent, in the same order.
  pub run-fifo :
      (ops : List (Op A)) (c : Channel A) {out : List A} {d : Channel A}
      → run ops c ≡ some (out, d)
      → out ++ entries d ≡ entries c ++ sent ops
  unfolding run
  run-fifo [] c h = ground (arith, append-nil (entries c))
  run-fifo (send x ∷ ops) c h =
      let (c', p, q) = >>=-eq-some (push x c) (run ops) h in
      cc (run-fifo ops c' q, entries-push x c p, append_assoc (entries c) (x ∷ []) (sent ops))
  run-fifo (receive ∷ ops) c {d = d} h =
      let ((x, c'), p, q) = >>=-eq-some (pop c) _ h in
      let ((rest, e), r, t) = >>=-eq-some (run ops c') _ q in
      ground (arith, run-fifo ops c' r, entries-pop c p)

  -- A history that does not fault keeps the channel within its capacity.
  pub run-IsBounded :
      (ops : List (Op A)) (c : Channel A) {out : List A} {d : Channel A}
      → IsBounded c
      → run ops c ≡ some (out, d)
      → IsBounded d
  unfolding run
  run-IsBounded [] c v h = ground arith
  run-IsBounded (send x ∷ ops) c v h =
      let (d, p, q) = >>=-eq-some (push x c) (run ops) h in
      run-IsBounded ops d (push-IsBounded x c v p) q
  run-IsBounded (receive ∷ ops) c v h =
      let ((x, c'), p, q) = >>=-eq-some (pop c) _ h in
      let ((rest, e), r, t) = >>=-eq-some (run ops c') _ q in
      subst IsBounded (ground arith) (run-IsBounded ops c' (pop-IsBounded c v p) r)

  -- Within its capacity a channel refuses a push exactly when it holds `capacity` entries, and
  -- `empty` holds exactly when there is nothing to pop.
  pub guards_exact :
      (x : A) (c : Channel A)
      → IsBounded c
      → ((push x c ≡ none) ↔ (length (entries c) ≡ c.capacity))
        × ((full c ≡ true) ↔ (push x c ≡ none))
        × ((empty c ≡ true) ↔ (pop c ≡ none))
        × ((empty c ≡ true) ↔ (get c ≡ none))
  unfolding push pop empty get full
  guards_exact x c v = ground arith
