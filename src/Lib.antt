-- ===== src/Lib.antt =====
-- near_mem_nsg: a simulator of a near-memory accelerator for nearest neighbour search on a graph.
--
-- The program. A controller hands the queries to a query engine through a channel. The engine keeps
-- one query at a time: it asks a distance computer for the distances of the initial ids, then
-- repeats a step of the search on the index (the library in deps/nsg), reads the edge list of the
-- expanded node and the vectors of its neighbours from the memory, cache line by cache line, has
-- their distances computed, and waits while they are inserted into the sorted pool. A wrapper stands
-- between the two memory channels and the memory simulator (deps/ramulator). Every component
-- advances by `cycle`, which calls its `do_cycle` and counts the cycle as busy or idle, and two
-- components meet only in the bounded channels between them.
--
-- The files.
--   Struct.antt      src/struct.h: the enums and the task records.
--   TaskQueue.antt   src/task_queue.h: the queue, and the sender and receiver of one channel. Both
--                    ends share one queue in the source; here that queue is a `Channel`, which every
--                    operation takes and gives back. A push to a full channel, a failed assertion, and a
--                    pop of an empty one, undefined in the source, are `none`.
--   Component.antt   src/component.h: `Component::cycle` over the `do_cycle` of a component.
--   Controller.antt  src/controller.h, src/controller.cc: `do_cycle`, `all_end`, `get_query_node`.
--   Dc.antt          src/dc.h, src/dc.cc: `Distance_Computer`; `do_cycle` is `compute`, `deliver` and
--                    `accept`, and the loop over `dc_task_state` is `scan` by `visit`.
--   Mapping.antt     `Query_Engine::address_mapping` of src/qe.cc.
--   Qe.antt          src/qe.h, src/qe.cc: `Query_Engine::do_cycle`, one function per case of its
--                    `switch`. Its loops return from the middle and change the elements they visit;
--                    `for_each` in Qe/Loop.antt is that loop, and Qe/Rule.antt has its proof rules.
--   Ramulator.antt   src/ramulator_wrapper.h, src/ramulator_wrapper.cc: `do_cycle`, `tick` and
--                    `call_back` over the memory as a parameter (`send` and `tick`).
--   Sim.antt         bins/simulation.cc: the main loop over the four components, with its one engine
--                    and its one distance computer; `round` is its body, `all_end` its test.
--                    Sim/Setup.antt is the set-up before it, over the index of Nsg.antt;
--                    Sim/Index.antt is that index with its vectors and queries, as the engine calls
--                    it, and Sim/Start.antt what the set-up constructs of it all. The other modules
--                    of Sim put the theorems on the components together.
--   Nsg.antt         deps/nsg/include/efanna2e/neighbor.h and deps/nsg/src/index_nsg.cpp: the search
--                    that this repository gave the library. Nsg/Pool.antt is `InsertIntoPool`,
--                    Nsg/Counted.antt `InsertIntoPool_withCompareCount`, Nsg/Graph.antt the members and
--                    `GetSizeAndAddr`, Nsg/File.antt `Save` and `Load`, Nsg/GetData.antt
--                    `NewSearchInit` and `NewSearchGetData`, Nsg/NewSearch.antt `NewSearch`,
--                    Nsg/PreProcess.antt `PreProcess` and `Search`; Nsg/Steps.antt repeats
--                    `NewSearchGetData` as an engine does, and Nsg/Optimum.antt is about the pool that
--                    this leaves, or that `NewSearch` does.
--   Files.antt       bins/simulation.cc: `load_data` and `save_result`, which bins/main.cc has too;
--                    `vector_at` is the pointer `query_load + i * dim`, whose product wraps.
--   Driver.antt      bins/main.cc: from the configuration to the result file.
--   Checks.antt, Qe/Examples.antt: runs of the models, and the theorems at concrete inputs.
-- A child module holds the proofs of what it is named for. Base.antt passes on the library's names
-- and the helpers in use everywhere.
--
-- The conventions. `do_cycle` takes the component with its channels, and gives back the flag that
-- the source returns with the new state; `none` is a failed assertion, an access out of range or an
-- overflow of an `int`. Unsigned numbers wrap at 2 ^ 32 and 2 ^ 64 where the source has them. The
-- members of the engine that only count, of type `int`, are plain numbers.
--
-- Bounds and fuel. The `while` of `address_mapping` (`lines_from`) has as fuel the number of bytes
-- left, and each round takes away 64 of them. The bisection of an insertion has the size of the pool,
-- which each round reduces, and `load_lists` the number of words of the file. The loop of a search
-- has fuel that its theorems require to exceed a bound: a round that expands a node lowers the number
-- of nodes without a flag plus entries to be expanded, and at most L + 1 rounds lie between two of
-- these. Every other loop goes through a list. The main loop of the simulation has no bound in the
-- source; `simulate` is at most so many of its rounds and says whether it has ended. Statements over
-- many cycles take their number as an argument.
--
-- Parameters. The engine takes the index as the record `Index` of Qe/State.antt; the theorems on
-- the engine alone assume nothing of it, and those of Sim have the index of Sim/Index.antt in its
-- place. An entry of the result set that is not there and a `NewSearchInit` that faults are `none`;
-- a step of the search that faults leaves a result set that is `none`. The memory is the record
-- `MemoryBase`; the theorems on the wrapper say which requests it holds and that it calls back what
-- it took. The search takes the vectors, `distance_->compare` and `<` on its results: the theorems
-- on the order assume that of two distances at most one is less than the other, as for any two
-- floats, and `dist >= d` is read as the negation of `dist < d`, as for any floats but NaN; the
-- theorems on the pool that a search leaves assume too that where a is not less than b and b not
-- than c, a is not less than c, that the distance of two vectors is symmetric, and that equalities
-- of distances are propositions. `std::sort` is an argument, of which some theorems assume that it
-- gives the entries back in order. The values of `rand()` are a list, in the order of the calls.
--
-- Not modelled. Reading the configuration, in bins/simulation.cc and bins/main.cc; the functions of
-- deps/nsg that build an index, which is a copy of the NSG library and is not called so here; the
-- Bloom filter, which the search writes and never reads, and its variant of the code under
-- `BLOOM_FILTER`, which is switched off; the counters that are only printed; the other libraries
-- under deps; log and console output; the string output of the components; the constructor and
-- destructor of the wrapper.
mod Base
pub mod Struct
pub mod Component
pub mod Controller
pub mod Dc
pub mod Mapping
pub mod Ramulator
pub mod Qe
pub mod Sim
pub mod Files
pub mod Nsg
pub mod Driver
mod Checks
pub mod TaskQueue
