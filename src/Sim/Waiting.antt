-- ===== src/Sim/Waiting.antt =====
-- The queries that wait for the engine in bins/simulation.cc.
use near_mem_nsg.Base.{ℕ, ◌<◌, ◌≡◌, sym, subst, inl, inr, some, [], ◌∷◌, All, All-append}
use near_mem_nsg.Struct.{NsgTask}
use near_mem_nsg.TaskQueue.{Channel, push}
use near_mem_nsg.TaskQueue.Bounds.{entries}
use near_mem_nsg.TaskQueue.Fifo.{entries-push, entries-pop}
use near_mem_nsg.Qe
use near_mem_nsg.Qe.Moves.{send_distance, take_distance, send_read, take_read, take_query}
use near_mem_nsg.Qe.Discipline.{AtMostOne}

-- The tasks of queries of a file with so many.
abbrev pub AreWithin : ℕ → Channel NsgTask → Type 0
AreWithin n c = All (λ t. t.query_id < n) (entries c)

pub push-AreWithin :
    (n : ℕ) (t : NsgTask) (c d : Channel NsgTask)
    → push t c ≡ some d
    → t.query_id < n
    → AreWithin n c
    → AreWithin n d
push-AreWithin n t c d h own all =
    subst (All (λ t. t.query_id < n)) (sym (entries-push t c h))
      (All-append (λ t. t.query_id < n) (entries c) (t ∷ []) all (own, tt))

pub Move-AreWithin :
    (n qe_name query_id : ℕ) (p q : Qe.Ports)
    → AtMostOne qe_name query_id p q
    → AreWithin n p.tasks
    → AreWithin n q.tasks
Move-AreWithin n qe_name query_id p q (inl same) all =
    subst (λ q. AreWithin n q.tasks) (sym same) all
Move-AreWithin n qe_name query_id p q (inr (send_distance t c h a b)) all = all
Move-AreWithin n qe_name query_id p q (inr (take_distance t c h a b)) all = all
Move-AreWithin n qe_name query_id p q (inr (send_read t c h a b)) all = all
Move-AreWithin n qe_name query_id p q (inr (take_read t c h)) all = all
Move-AreWithin n qe_name query_id p q (inr (take_query t c h)) all =
    (subst (All (λ t. t.query_id < n)) (entries-pop p.tasks h) all).1
