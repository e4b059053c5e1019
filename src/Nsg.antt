-- ===== src/Nsg.antt =====
-- deps/nsg/include/efanna2e/neighbor.h and the parts of deps/nsg/src/index_nsg.cpp that the
-- repository added to the NSG library or changed: the search on the graph.
pub mod Pool
pub mod Counted
pub mod Graph
pub mod File
pub mod Potential
pub mod GetData
pub mod Steps
pub mod NewSearch
pub mod PreProcess
pub mod Optimum
