-- ===== src/Sim/Setup.antt =====
-- The set-up in `main` of bins/simulation.cc: the globals that every query starts from, out of the
-- configuration and the files. A failed assertion and an early return are `none`.
pub mod Ready
use near_mem_nsg.Base.{
  ℕ, ◌+◌, Bool, false, Option, none, some, List, ltb, ◌==◌, if◌then◌else◌, ◌>>=◌, replicate,
}
use near_mem_nsg.Files.{Matrix, load_data}
use near_mem_nsg.Nsg.Pool.{Neighbor}
use near_mem_nsg.Nsg.Graph.{Graph}
use near_mem_nsg.Nsg.File.{load}
use near_mem_nsg.Nsg.File.RoundTrip.{blank}
use near_mem_nsg.Nsg.PreProcess.{Gather, pre_process}
use near_mem_nsg.Driver.{Inputs}

-- The values of `query_type` that `main` tells apart.
pub data QueryType : Type 0 where
  int8 : QueryType
  uint8 : QueryType
  float32 : QueryType
  other_type : QueryType

pub record Globals (D : Type 0) : Type 0 where
  pub global_sizeof : ℕ
  pub base : Matrix
  pub query : Matrix
  pub index : Graph
  pub global_retset : List (Neighbor D)
  pub global_init_ids : List ℕ
  pub global_flags : List Bool

unfoldable pub sizeof_type : QueryType → Option ℕ
sizeof_type int8 = some 1
sizeof_type uint8 = some 1
sizeof_type float32 = some 4
sizeof_type other_type = none

-- The index file, for files whose dimensions agree.
abbrev pub load_index : Matrix → Matrix → Option (List ℕ) → Option Graph
load_index base query nsg_file =
    if base.dim == query.dim then load (blank base.num) nsg_file else none

module _ {D : Type 0} (unset : Neighbor D) where
  -- `PreProcess` and the globals, given the values of `rand()`.
  unfoldable pub make_globals : ℕ → Matrix → Matrix → Graph → List ℕ → ℕ → Option (Globals D)
  make_globals size base query g draws l = do
    s ← pre_process l g draws (replicate l 0) (replicate base.num false)
    if s.tmp_l == l
        then some (record {
          global_sizeof = size;
          base = base;
          query = query;
          index = g;
          global_retset = replicate (l + 1) unset;
          global_init_ids = s.init_ids;
          global_flags = s.flags;
        })
        else none

  -- The set-up: the type of the data, `L` against `K`, the files, the index.
  unfoldable pub set_up : QueryType → List ℕ → Inputs → Option (Globals D)
  set_up type draws c = sizeof_type type >>= λ size.
      if ltb c.l c.k
      then none
      else (load_data c.base_file >>= λ base. load_data c.query_file >>= λ query.
          load_index base query c.nsg_file >>= λ g. make_globals size base query g draws c.l)
