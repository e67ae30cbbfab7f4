-- ===== src/Supervisor.antt =====
-- Package `supervisor`: the stop signal, the transactions that are read and sent, the committee that
-- partitions the shards anew.
pub mod Signal
pub mod Loading
pub mod Sending
pub mod Committee
pub mod Measures
