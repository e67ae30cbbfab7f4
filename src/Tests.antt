-- ===== src/Tests.antt =====
-- Witnesses and tests on concrete values.
mod Sets
mod Codecs
mod Encodings
mod Samples
mod Followers
mod Proposers
mod Chains
mod Consensus
mod Pools
mod Relays
mod States
mod Partitions
mod Committees
mod Transfers
mod Rounds
mod Writes
