-- ===== src/Partition.antt =====
-- The partition of accounts into shards, package partition.
pub mod Graph
pub mod Arrays
pub mod Clpa
pub mod Propagation
pub mod Edges
pub mod Counts
pub mod Compute
pub mod Recount
pub mod Recompute
pub mod Population
pub mod Best
pub mod Sweeps
pub mod Outcome
pub mod Starting
pub mod Members
pub mod Turns
pub mod Building
