-- ===== src/SubMpt.antt =====
-- Package `consensus_shard/subMPT`: the proposer, its followers, and the messages between them.
pub mod Messages
pub mod Routing
pub mod Follower
pub mod Proposer
