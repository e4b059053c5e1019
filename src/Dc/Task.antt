-- ===== src/Dc/Task.antt =====
-- What a distance computer of src/dc.cc does with its tasks: it answers each one, in order.
use near_mem_nsg.Base.{
  ◌≡◌, ◌∙◌, ◌≢◌, Bool, Option, none, some, List, [], ◌∷◌, ◌++◌, append-nil, append_assoc, arith,
  if◌then◌else◌, ◌>>=◌, >>=-eq-some,
}
use near_mem_nsg.Struct.{DistanceTask}
use near_mem_nsg.TaskQueue.{full, push, empty, pop}
use near_mem_nsg.TaskQueue.Bounds.{entries}
use near_mem_nsg.TaskQueue.Fifo.{entries-push, entries-pop}
use near_mem_nsg.Dc.{Config, DistanceComputer, State, current, do_cycle, deliver}

-- The task that is being computed, if any.
abbrev pub in_flight : DistanceComputer → List DistanceTask
in_flight d = if d.dc_work_finished then [] else current d ∷ []

-- All tasks that a computer and its channels hold, those to leave first in front.
abbrev pub pending : State → List DistanceTask
pending s = entries s.return_distance_sender ++ (in_flight s.dc ++ entries s.distance_receiver)

module _ (cfg : Config) where
  -- A cycle never faults.
  pub do_cycle_total : (s : State) → do_cycle cfg s ≢ none
  unfolding do_cycle deliver push pop empty full
  do_cycle_total s = ground arith

  -- A cycle keeps the sequence of tasks.
  pub do_cycle-pending :
      (s t : State) {r : Bool} → do_cycle cfg s ≡ some (r, t) → pending t ≡ pending s
  unfolding do_cycle deliver push pop empty full
  do_cycle-pending s t e = ground (
    arith,
    append_assoc (entries s.return_distance_sender) (current s.dc ∷ [])
        (entries s.distance_receiver),
  )

-- What happens to a computer and its two channels: a cycle of its own, a task that some query engine
-- sends, or an answer that one takes.
pub data Event : Type 0 where
  works : Event
  submits : DistanceTask → Event
  collects : Event

-- The state after a history, with the answers collected. `none` is a failed assertion or a pop from
-- an empty channel.
unfoldable pub run : Config → List Event → State → Option (List DistanceTask × State)
run cfg [] s = some ([], s)
run cfg (works ∷ es) s = do_cycle cfg s >>= λ (r, t). run cfg es t
run cfg (submits x ∷ es) s =
    push x s.distance_receiver >>= λ c. run cfg es (record s { distance_receiver = c })
run cfg (collects ∷ es) s = do
  (x, c) ← pop s.return_distance_sender
  (out, t) ← run cfg es (record s { return_distance_sender = c })
  some (x ∷ out, t)

abbrev pub submitted : List Event → List DistanceTask
submitted [] = []
submitted (works ∷ es) = submitted es
submitted (submits x ∷ es) = x ∷ submitted es
submitted (collects ∷ es) = submitted es

-- In every history that does not fault, the answers collected, followed by those not collected yet,
-- the task in the works and the tasks that wait, are the tasks held at first followed by those
-- submitted: every answer carries the engine, query and node of its task, and they come in the order
-- of submission, each once.
pub answers_in_order :
    (cfg : Config) (es : List Event) (s t : State) {out : List DistanceTask}
    → run cfg es s ≡ some (out, t)
    → out ++ pending t ≡ pending s ++ submitted es
unfolding run
answers_in_order cfg [] s t h = ground (arith, append-nil (pending s))
answers_in_order cfg (works ∷ es) s t h =
    let ((r, u), p, q) = >>=-eq-some (do_cycle cfg s) _ h in
    cc (answers_in_order cfg es u t q, do_cycle-pending cfg s u p)
answers_in_order cfg (submits x ∷ es) s t h =
    let (c, p, q) = >>=-eq-some (push x s.distance_receiver) _ h in
    answers_in_order cfg es _ t q ∙ rw (entries-push x s.distance_receiver p) (simp append_assoc)
answers_in_order cfg (collects ∷ es) s t h =
    let ((x, c), p, q) = >>=-eq-some (pop s.return_distance_sender) _ h in
    let ((rest, u), r, w) = >>=-eq-some (run cfg es _) _ q in
    ground (arith, answers_in_order cfg es _ u r, entries-pop s.return_distance_sender p)
