-- ===== src/Core.antt =====
-- Package `core`: transactions, account states and the transaction pool.
pub mod Account
pub mod Transaction
pub mod Block
pub mod TxPool
