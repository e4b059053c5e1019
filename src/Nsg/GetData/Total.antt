-- ===== src/Nsg/GetData/Total.antt =====
-- A step of the search on a well-formed state: it does not fault, and it keeps the state so.
use near_mem_nsg.Base.{
  ℕ, suc, ◌+◌, ◌-◌, ◌≤◌, ◌<◌, ◌≡◌, refl, sym, ap, subst, ◌∙◌, inl, inr, Bool, true, false, Option,
  some, List, [], ◌∷◌, ◌++◌, arith, ltb, if◌then◌else◌, Bool-cases, Option-cases, length, get_elem?,
  set, All, length-append, length-set, get_elem?-lt, All-set,
}
use near_mem_nsg.Nsg.Pool.{Neighbor}
use near_mem_nsg.Nsg.Pool.Shift.{All-shift_in}
use near_mem_nsg.Nsg.Pool.Outcome.{Outcome, inserted, past_end, duplicate}
use near_mem_nsg.Nsg.Pool.Sorted.{IsSorted, insert-IsSorted}
use near_mem_nsg.Nsg.Counted.{insert_with_compare_count}
use near_mem_nsg.Nsg.Counted.Agreement.{forget, insert_counted}
use near_mem_nsg.Nsg.Potential.{unseen, active, unseen-set, active-shift_in, active-set}
use near_mem_nsg.Nsg.GetData.{Expansion, insert_target, new_target, visit_edge, visit_edges}

module _ {V D : Type 0} (lt : D → D → Bool) (asym : (a b : D) → lt a b ≡ true → lt b a ≡ false)
    (compare : V → V → D) (base : List V) (l nd : ℕ) (pos : 0 < l)
    (vectors : nd ≤ length base) where
  -- A pool with a slot past its `L` entries, in order, with the ids of nodes, and a flag per node.
  pub record IsFit (s : Expansion D) : Type 0 where
    pub room : l < length s.retset
    pub nodes : length s.flags ≡ nd
    pub ids : All (λ e. e.id < nd) s.retset
    pub sorted : IsSorted lt l s.retset

  -- What bounds the rest of a search.
  abbrev pub potential : Expansion D → ℕ
  potential s = unseen s.flags + active s.retset

  -- From one state to a later one: as many latencies as targets have been added, and the potential
  -- has not grown.
  pub record Advances (s t : Expansion D) : Type 0 where
    pub fit : IsFit t
    pub descends : potential t ≤ potential s
    pub paired :
        length t.target_ids + length s.compare_latency
        ≡ length s.target_ids + length t.compare_latency

  abbrev Succeeds : Expansion D → Option (Expansion D) → Type 0
  Succeeds s o = (t : Expansion D) × (o ≡ some t) × Advances s t

  Outcome-active :
      (addr : List (Neighbor D)) (nn : Neighbor D) (r : ℕ) (pool : List (Neighbor D))
      → nn.id < nd
      → All (λ e. e.id < nd) addr
      → Outcome lt addr l nn r pool
      → (active pool ≤ suc (active addr)) × All (λ e. e.id < nd) pool
  Outcome-active addr nn r pool h ids (inserted i w p f) =
      (active-shift_in i l nn addr, All-shift_in (λ e. e.id < nd) i l nn addr h ids)
  Outcome-active addr nn r pool h ids (past_end j e w g q) =
      (active-set addr l nn, All-set (λ e. e.id < nd) addr l nn h ids)
  Outcome-active addr nn r pool h ids (duplicate j e w g q) = (omega arith, ids)

  -- The insertion, where a node has just been flagged.
  insert_target_lem :
      (id : ℕ) (dist : D) (s : Expansion D)
      → id < nd
      → IsFit s
      → (t : Expansion D) × (insert_target lt compare base l id dist s ≡ some t)
        × IsFit t
        × (potential t ≤ suc (potential s))
        × (t.target_ids ≡ s.target_ids)
        × (length t.compare_latency ≡ suc (length s.compare_latency))
  unfolding insert_target
  insert_target_lem id dist s h fit =
      let (r, pool, ends, o, same, order) = insert-IsSorted lt s.retset l nn fit.room asym pos in
      let (more, ids) = Outcome-active s.retset nn r pool h fit.ids o in
      elim (Option-cases (insert_with_compare_count lt s.retset l nn 0)) [
        | inl fault ↦ absurd (ground (arith, insert_counted lt s.retset l nn 0))
        | inr (c, g) ↦
            let at : some (r, pool) ≡ forget (some c) =
              sym (ap forget (sym g) ∙ insert_counted lt s.retset l nn 0 ∙ ends) in
            let pooled : pool ≡ c.pool = ground arith in
            (
              record s {
                retset = c.pool;
                nk = if ltb c.position s.nk then c.position else s.nk;
                compare_latency = s.compare_latency ++ c.compare_count ∷ [];
              },
              rw g refl,
              record {
                room = subst (λ p. l < length p) pooled (omega (arith, same, fit.room));
                nodes = fit.nodes;
                ids = subst (All (λ e. e.id < nd)) pooled ids;
                sorted = subst (IsSorted lt l) pooled (order fit.sorted);
              },
              subst (λ p. unseen s.flags + active p ≤ suc (unseen s.flags + active s.retset)) pooled
                  (omega arith),
              refl,
              length-append s.compare_latency (c.compare_count ∷ []) ∙ omega arith,
            )
      ]
    where
      nn : Neighbor D
      nn = record { id = id; distance = dist; flag = true }

  new_target_lem :
      (query : V) (id : ℕ) (s : Expansion D)
      → id < nd
      → get_elem? s.flags id ≡ some false
      → IsFit s
      → Succeeds s (new_target lt compare base l query id s)
  unfolding new_target
  new_target_lem query id s h fresh fit =
      let (v, g) = get_elem?-lt base id (omega arith) in
      let (last, g') = get_elem?-lt s.retset (l - 1) (omega (arith, fit.room)) in
      let one = unseen-set s.flags id fresh in
      let ids = length-append s.target_ids (id ∷ []) in
      let fit' : IsFit seen = record {
        room = fit.room;
        nodes = length-set s.flags id true ∙ fit.nodes;
        ids = fit.ids;
        sorted = fit.sorted;
      } in
      elim (Bool-cases (lt (compare query v) last.distance)) [
        | inl nearer ↦
            let (t, q, f, d, i, c) = insert_target_lem id (compare query v) seen h fit' in
            (
              t,
              rw (g, g', nearer) q,
              record { fit = f; descends = omega arith; paired = omega (arith, ap length i) },
            )
        | inr farther ↦ (
          record seen { compare_latency = s.compare_latency ++ 1 ∷ [] },
          rw (g, g', farther) refl,
          record {
            fit = record {
              room = fit'.room;
              nodes = fit'.nodes;
              ids = fit'.ids;
              sorted = fit'.sorted;
            };
            descends = omega arith;
            paired = omega (arith, length-append s.compare_latency (1 ∷ []));
          },
        )
      ]
    where
      seen : Expansion D
      seen = record s { flags = set s.flags id true; target_ids = s.target_ids ++ id ∷ [] }

  Advances-refl : (s : Expansion D) → IsFit s → Advances s s
  Advances-refl s fit = record { fit = fit; descends = omega arith; paired = omega arith }

  Advances-trans : (s t u : Expansion D) → Advances s t → Advances t u → Advances s u
  Advances-trans s t u a b = record {
    fit = b.fit;
    descends = omega (arith, a.descends, b.descends);
    paired = omega (arith, a.paired, b.paired);
  }

  pub visit_edge_lem :
      (query : V) (id : ℕ) (s : Expansion D)
      → id < nd
      → IsFit s
      → Succeeds s (visit_edge lt compare base l query id s)
  unfolding visit_edge
  visit_edge_lem query id s h fit =
      let (b, g) = get_elem?-lt s.flags id (omega (arith, fit.nodes)) in
      elim (Bool-cases b) [
        | inl seen ↦ (s, rw (g, seen) refl, Advances-refl s fit)
        | inr fresh ↦ rw (g, fresh) (new_target_lem query id s h (g ∙ ap some fresh) fit)
      ]

  pub visit_edges_lem :
      (query : V) (ids : List ℕ) (s : Expansion D)
      → All (λ id. id < nd) ids
      → IsFit s
      → Succeeds s (visit_edges lt compare base l query ids s)
  unfolding visit_edges
  visit_edges_lem query [] s h fit = (s, refl, Advances-refl s fit)
  visit_edges_lem query (id ∷ ids) s h fit =
      let (t, q, a) = visit_edge_lem query id s h.0 fit in
      let (u, q', b) = visit_edges_lem query ids t h.1 a.fit in
      (u, rw q q', Advances-trans s t u a b)
