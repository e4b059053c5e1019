-- ===== src/Nsg/PreProcess/Prepared.antt =====
-- The initial ids of deps/nsg/src/index_nsg.cpp once `PreProcess` has gathered `L` of them.
use near_mem_nsg.Base.{
  ℕ, zero, suc, ◌+◌, ◌≤◌, ◌<◌, ◌≡◌, refl, sym, subst, ◌∙◌, ◌⊎◌, inl, inr, Bool, true, false, some,
  List, [], ◌∷◌, arith, ltb, ltb→lt, Bool-cases, length, get_elem?, replicate, All,
  length-replicate, take_whole, All-get_elem?, lt-get_elem?,
}
use near_mem_nsg.Nsg.Graph.{Graph}
use near_mem_nsg.Nsg.Potential.{unseen}
use near_mem_nsg.Nsg.GetData.Answers.{IsGraph}
use near_mem_nsg.Nsg.PreProcess.{Gather, gather_random, gather_init, pre_process}
use near_mem_nsg.Nsg.PreProcess.Gathered.{
  IsIn, IsDistinct, IsGathered, gather_all_lem, gather_nodes_lem, gather_random_lem,
}

-- The initial ids that are wanted: ids of nodes, each flagged and none twice.
pub record IsPrepared (l nd : ℕ) (s : Gather) : Type 0 where
  pub full : length s.init_ids ≡ l
  pub nodes : length s.flags ≡ nd
  pub flagged : All (λ id. get_elem? s.flags id ≡ some true) s.init_ids
  pub distinct : IsDistinct s.init_ids
  pub only : (id : ℕ) → get_elem? s.flags id ≡ some true → IsIn id s.init_ids

flagged-own :
    (flags : List Bool) (nd : ℕ) (ids : List ℕ)
    → length flags ≡ nd
    → All (λ id. get_elem? flags id ≡ some true) ids
    → All (λ id. id < nd) ids
flagged-own flags nd [] e h = tt
flagged-own flags nd (id ∷ ids) e h =
    (omega (arith, lt-get_elem? flags id true h.0, e), flagged-own flags nd ids e h.1)

pub IsPrepared-own : (l nd : ℕ) (s : Gather) → IsPrepared l nd s → All (λ id. id < nd) s.init_ids
IsPrepared-own l nd s ready = flagged-own s.flags nd s.init_ids ready.nodes ready.flagged

get_elem?-replicate : (n i : ℕ) → i < n → get_elem? (replicate n false) i ≡ some false
get_elem?-replicate zero i h = absurd (omega arith)
get_elem?-replicate (suc n) zero h = refl
get_elem?-replicate (suc n) (suc i) h = get_elem?-replicate n i (omega arith)

fresh-replicate :
    (nd : ℕ) (ids : List ℕ)
    → All (λ id. id < nd) ids
    → All (λ id. get_elem? (replicate nd false) id ≡ some false) ids
fresh-replicate nd [] h = tt
fresh-replicate nd (id ∷ ids) h = (get_elem?-replicate nd id h.0, fresh-replicate nd ids h.1)

unseen-replicate : (n : ℕ) → 0 + unseen (replicate n false) ≡ n
unseen-replicate zero = refl
unseen-replicate (suc n) = omega (arith, unseen-replicate n)

none-flagged : (n id : ℕ) → get_elem? (replicate n false) id ≡ some true → ⊥
none-flagged zero id h = ground arith
none-flagged (suc n) zero h = ground arith
none-flagged (suc n) (suc id) h = none-flagged n id h

-- The state that the first two loops leave, and which the third goes on from.
pub gather_edges_of_entry :
    (l : ℕ) (g : Graph) (init_ids entry : List ℕ)
    → IsGraph g
    → get_elem? g.final_graph g.ep ≡ some entry
    → IsDistinct entry
    → length entry < l
    → length init_ids ≡ l
    → (s : Gather) × IsGathered l g.nd s
      × (0 < g.nd)
      × ((draws : List ℕ)
          → pre_process l g draws init_ids (replicate g.nd false) ≡ gather_random l g.nd draws s)
unfolding pre_process gather_init
gather_edges_of_entry l g init_ids entry graph h distinct few room =
    let own = All-get_elem? (All (λ id. id < g.nd)) g.final_graph g.ep entry graph.edges h in
    let (s1, q1, ok1, n1) =
      gather_all_lem l g.nd entry start (omega arith) distinct (fresh-replicate g.nd entry own)
        (record {
          room = omega arith;
          slots = room;
          nodes = length-replicate g.nd false;
          flagged = tt;
          distinct = tt;
          counted = unseen-replicate g.nd;
          only = λ id h. absurd (none-flagged g.nd id h);
        }) in
    let (s2, q2, ok2) = gather_nodes_lem l g.nd g entry s1 graph refl (omega (arith, n1)) own ok1 in
    (
      s2,
      ok2,
      omega (arith, lt-get_elem? g.final_graph g.ep entry h, graph.lists),
      λ draws. rw (h, q1, q2) refl,
    )
  where
    start : Gather
    start = record { init_ids = init_ids; tmp_l = 0; flags = replicate g.nd false }

pub IsGathered-IsPrepared :
    (l nd : ℕ) (s : Gather) → IsGathered l nd s → s.tmp_l ≡ l → IsPrepared l nd s
IsGathered-IsPrepared l nd s ok e =
    let all = take_whole s.init_ids s.tmp_l (ok.slots ∙ sym e) in
    record {
      full = ok.slots;
      nodes = ok.nodes;
      flagged = subst (All (λ id. get_elem? s.flags id ≡ some true)) all ok.flagged;
      distinct = subst IsDistinct all ok.distinct;
      only = λ id h. subst (IsIn id) all (ok.only id h);
    }

-- On a well-formed graph whose entry point has distinct edges, fewer than `L`, the three loops of
-- `PreProcess` run without a fault on any values of `rand()`; they end with these, where `tmp_l` is
-- still below `L`, or with initial ids that are `L` different nodes, each with its flag set.
pub pre_process-IsPrepared :
    (l : ℕ) (g : Graph) (draws init_ids entry : List ℕ)
    → IsGraph g
    → get_elem? g.final_graph g.ep ≡ some entry
    → IsDistinct entry
    → length entry < l
    → length init_ids ≡ l
    → (s : Gather) × (pre_process l g draws init_ids (replicate g.nd false) ≡ some s)
      × ((s.tmp_l < l) ⊎ IsPrepared l g.nd s)
pre_process-IsPrepared l g draws init_ids entry graph h distinct few room =
    let (s, ok, pos, run) = gather_edges_of_entry l g init_ids entry graph h distinct few room in
    let (t, q, ok') = gather_random_lem l g.nd draws s pos ok in
    (
      t,
      run draws ∙ q,
      elim (Bool-cases (ltb t.tmp_l l)) [
        | inl below ↦ inl (ltb→lt t.tmp_l l below)
        | inr full ↦ inr (IsGathered-IsPrepared l g.nd t ok' (filled t ok'.room full))
      ],
    )
  where
    filled : (t : Gather) → t.tmp_l ≤ l → ltb t.tmp_l l ≡ false → t.tmp_l ≡ l
    filled t room full = ground arith
