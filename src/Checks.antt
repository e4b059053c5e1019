-- ===== src/Checks.antt =====
-- The theorems at concrete inputs, and runs of the models.
mod Queues
mod Computers
mod Reads
mod Simulation
pub mod Sorting
pub mod Searches
mod Driving
mod Engines
