-- ===== src/Qe.antt =====
-- src/qe.h and src/qe.cc: the query engines. The cycle of an engine is a switch on its state: `Init`
-- has the first two states and the fetching of a query, `GetData`, `Edge` and `Distance` one each,
-- and `Cycle` the switch. The other modules hold what is proved of them.
mod State
mod Loop
pub mod Init
pub mod GetData
pub mod Edge
mod Vector
pub mod Distance
mod Cycle
mod Examples
pub mod Rule
pub mod Moves
pub mod Rounds
pub mod Discipline
pub mod Phases
pub mod Entries
pub mod Sorting
pub mod Steps
pub mod Transitions
pub mod Keeps
pub mod Related
pub mod Awaits
pub mod Replies
pub mod Measures
pub mod Visits
pub mod Issue
pub mod Finish
pub mod Totality
pub use State.{Ports, Stats, Trace, SearchStep, Index, Config, QueryEngine, Engine}
unfoldable pub use Cycle.{working, all_end, by_state, do_cycle}
unfoldable pub use GetData.{query_get_data}
