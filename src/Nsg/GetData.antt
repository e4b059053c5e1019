-- ===== src/Nsg/GetData.antt =====
-- `NewSearchInit` and `NewSearchGetData` of deps/nsg/src/index_nsg.cpp: the start of a search, and
-- one step of it. Vectors `V` and distances `D` are arguments, with `distance_->compare` and `<`;
-- what the source writes `dist >= d` is here that `dist < d` fails, which is the same for numbers.
-- `std::sort` is an argument too.
pub mod Total
pub mod Answers
pub mod Targets
use near_mem_nsg.Base.{
  ℕ, ◌+◌, ◌-◌, Bool, true, false, ◌&&◌, Option, none, some, List, [], ◌∷◌, ◌++◌, ltb, leb,
  if◌then◌else◌, ◌>>=◌, length, get_elem?, set, take, drop,
}
use near_mem_nsg.Nsg.Pool.{Neighbor, write}
use near_mem_nsg.Nsg.Counted.{Counted, insert_with_compare_count}
use near_mem_nsg.Nsg.Graph.{Graph}

-- What a step changes while it goes through the edges of a node.
pub record Expansion (D : Type 0) : Type 0 where
  pub retset : List (Neighbor D)
  pub flags : List Bool
  pub nk : ℕ
  pub target_ids : List ℕ
  pub compare_latency : List ℕ

-- The result and the arguments that are written; `none` for -1.
pub record Answer (D : Type 0) : Type 0 where
  pub next_k : Option ℕ
  pub retset : List (Neighbor D)
  pub flags : List Bool
  pub edge_table_id : ℕ
  pub target_ids : List ℕ
  pub compare_latency : List ℕ

-- `if (nk <= k) k = nk; else k++;`
abbrev pub next_position : ℕ → ℕ → ℕ
next_position nk k = if leb nk k then nk else k + 1

module _ {V D : Type 0} (lt : D → D → Bool) (compare : V → V → D) (base : List V) (l : ℕ) where
  -- `std::vector<Neighbor>` over the ids, with their distances.
  unfoldable pub ranked : V → List ℕ → Option (List (Neighbor D))
  ranked query [] = some []
  ranked query (id ∷ ids) = do
    v ← get_elem? base id
    rest ← ranked query ids
    some (record { id = id; distance = compare v query; flag = true } ∷ rest)

  -- `NewSearchInit`: the entries of the ids stand at the front of the pool, whose first `L` entries
  -- are then sorted.
  unfoldable pub new_search_init :
      (List (Neighbor D) → List (Neighbor D))
      → List ℕ
      → List (Neighbor D)
      → V
      → Option (List (Neighbor D))
  unfolding ranked
  new_search_init sort init_ids retset query = do
    entries ← ranked query init_ids
    if leb (length init_ids) (length retset) && leb l (length retset)
        then some (
            let filled = entries ++ drop (length init_ids) retset in
            sort (take l filled) ++ drop l filled)
        else none

  -- A neighbour that is nearer than the last of the pool.
  unfoldable pub insert_target : ℕ → D → Expansion D → Option (Expansion D)
  insert_target id dist s =
      insert_with_compare_count lt s.retset l (record { id = id; distance = dist; flag = true }) 0
      >>= λ c. some (record s {
        retset = c.pool;
        nk = if ltb c.position s.nk then c.position else s.nk;
        compare_latency = s.compare_latency ++ c.compare_count ∷ [];
      })

  -- A neighbour that has not been seen.
  unfoldable pub new_target : V → ℕ → Expansion D → Option (Expansion D)
  unfolding insert_target
  new_target query id s = do
    v ← get_elem? base id
    last ← get_elem? s.retset (l - 1)
    let seen = record s { flags = set s.flags id true; target_ids = s.target_ids ++ id ∷ [] }
    if lt (compare query v) last.distance
        then insert_target id (compare query v) seen
        else some (record seen { compare_latency = s.compare_latency ++ 1 ∷ [] })

  -- The body of the loop over the edges.
  unfoldable pub visit_edge : V → ℕ → Expansion D → Option (Expansion D)
  unfolding new_target
  visit_edge query id s =
      get_elem? s.flags id >>= λ seen. if seen then some s else new_target query id s

  unfoldable pub visit_edges : V → List ℕ → Expansion D → Option (Expansion D)
  visit_edges query [] s = some s
  visit_edges query (id ∷ ids) s = visit_edge query id s >>= visit_edges query ids

  -- `if (retset[k].flag) { … }` for an entry that is to be expanded.
  unfoldable pub expand : Graph → V → ℕ → Neighbor D → Expansion D → Option (Expansion D)
  unfolding visit_edges
  expand g query k e s = do
    edges ← get_elem? g.final_graph e.id
    visit_edges query edges (record s { retset = set s.retset k (record e { flag = false }) })

  -- `NewSearchGetData`.
  unfoldable pub new_search_get_data :
      Graph → V → ℕ → ℕ → List (Neighbor D) → List Bool → List ℕ → List ℕ → Option (Answer D)
  unfolding expand
  new_search_get_data g query k edge_table_id retset flags target_ids compare_latency =
      let s : Expansion D = record {
        retset = retset;
        flags = flags;
        nk = l;
        target_ids = target_ids;
        compare_latency = compare_latency;
      } in
      let unchanged : Answer D = record {
        next_k = none;
        retset = retset;
        flags = flags;
        edge_table_id = edge_table_id;
        target_ids = target_ids;
        compare_latency = compare_latency;
      } in
      if leb l k
      then some unchanged
      else (get_elem? retset k >>= λ e.
          if e.flag
          then (expand g query k e s >>= λ t. some (record {
            next_k = some (next_position t.nk k);
            retset = t.retset;
            flags = t.flags;
            edge_table_id = e.id;
            target_ids = t.target_ids;
            compare_latency = t.compare_latency;
          }))
          else some (record unchanged { next_k = some (next_position l k) }))
