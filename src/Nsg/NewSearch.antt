-- ===== src/Nsg/NewSearch.antt =====
-- `NewSearch` of deps/nsg/src/index_nsg.cpp: the whole search that bins/main.cc times, with the early
-- termination that the source switches on. The counters that are only printed are left out, and so
-- is the Bloom filter, which is written and never read.
pub mod Ends
pub mod Start
use near_mem_nsg.Base.{
  ℕ, zero, suc, ◌+◌, ◌-◌, Bool, true, false, Option, none, some, List, [], ◌∷◌, map, ltb, leb,
  if◌then◌else◌, ◌>>=◌, length, get_elem?, set, take, replicate, inc64,
}
use near_mem_nsg.Nsg.Pool.{Neighbor, insert_into_pool}
use near_mem_nsg.Nsg.Graph.{Graph}
use near_mem_nsg.Nsg.GetData.{next_position, ranked, new_search_init}

-- The variables of the `while` loop, with `nk`.
pub record Progress (D : Type 0) : Type 0 where
  pub retset : List (Neighbor D)
  pub flags : List Bool
  pub nk : ℕ
  pub early_term_counter : ℕ
  pub early_term_flag : Bool

module _ {D : Type 0} where
  -- Ten insertions in a row at position 150 or later set the flag.
  abbrev pub early_termination : ℕ → Progress D → Progress D
  early_termination r s =
      let counter = if leb 150 r then inc64 s.early_term_counter else 0 in
      record s {
        early_term_counter = counter;
        early_term_flag = if leb 10 counter then true else s.early_term_flag;
      }

  -- The start of the loop.
  abbrev pub start_search : ℕ → List (Neighbor D) → List Bool → Progress D
  start_search l retset flags = record {
    retset = retset;
    flags = flags;
    nk = l;
    early_term_counter = 0;
    early_term_flag = false;
  }

  -- `indices[i] = retset[i].id`.
  abbrev pub indices_of : ℕ → List (Neighbor D) → Option (List ℕ)
  indices_of n retset =
      if leb n (length retset) then some (map (λ e. e.id) (take n retset)) else none

module _ {V D : Type 0} (lt : D → D → Bool) (compare : V → V → D) (base : List V) (l : ℕ) where
  unfoldable pub insert_neighbor : ℕ → D → Progress D → Option (Progress D)
  insert_neighbor id dist s =
      insert_into_pool lt s.retset l (record { id = id; distance = dist; flag = true })
      >>= λ (r, pool).
          some
            (early_termination r (record s { retset = pool; nk = if ltb r s.nk then r else s.nk }))

  unfoldable pub new_neighbor : V → ℕ → Progress D → Option (Progress D)
  unfolding insert_neighbor
  new_neighbor query id s = do
    v ← get_elem? base id
    last ← get_elem? s.retset (l - 1)
    let seen = record s { flags = set s.flags id true }
    if lt (compare query v) last.distance
        then insert_neighbor id (compare query v) seen
        else some seen

  -- The body of the loop over the edges.
  unfoldable pub search_edge : V → ℕ → Progress D → Option (Progress D)
  unfolding new_neighbor
  search_edge query id s =
      get_elem? s.flags id >>= λ seen. if seen then some s else new_neighbor query id s

  unfoldable pub search_edges : V → List ℕ → Progress D → Option (Progress D)
  search_edges query [] s = some s
  search_edges query (id ∷ ids) s = search_edge query id s >>= search_edges query ids

  unfoldable pub search_node : Graph → V → ℕ → Neighbor D → Progress D → Option (Progress D)
  unfolding search_edges
  search_node g query k e s = do
    edges ← get_elem? g.final_graph e.id
    search_edges query edges (record s { retset = set s.retset k (record e { flag = false }) })

  -- One round of the `while` loop, up to the change of `k`.
  unfoldable pub search_round : Graph → V → ℕ → Progress D → Option (Progress D)
  unfolding search_node
  search_round g query k s =
      let s' = record s { nk = l } in
      get_elem? s.retset k >>= λ e. if e.flag then search_node g query k e s' else some s'

  -- `while (k < (int)L)`, on fuel.
  unfoldable pub search_loop : ℕ → Graph → V → ℕ → Progress D → Option (Progress D)
  unfolding search_round
  search_loop zero g query k s = none
  search_loop (suc n) g query k s = elim (ltb k l) [
    | false ↦ some s
    | true ↦ search_round g query k s >>= λ t. elim t.early_term_flag [
      | true ↦ some t
      | false ↦ search_loop n g query (next_position t.nk k) t
    ]
  ]

  -- `NewSearch` over `std::sort`, an entry as `retset` is made of, and fuel: the ids of the `n`
  -- nearest.
  unfoldable pub new_search :
      (List (Neighbor D) → List (Neighbor D))
      → Neighbor D
      → ℕ
      → Graph
      → List ℕ
      → List Bool
      → V
      → ℕ
      → Option (List ℕ)
  unfolding search_loop
  new_search sort blank fuel g init_ids flags query n = do
    retset ← new_search_init lt compare base l sort init_ids (replicate (l + 1) blank) query
    s ← search_loop fuel g query 0 (start_search l retset flags)
    indices_of n s.retset
