-- ===== src/Blockchain.antt =====
-- src/blockchain: the in-memory chain state, reorg detection, rollback and event indexing.
pub mod Types
pub mod State
pub mod Reorg
pub mod Reconcile
pub mod Indexing
mod Tests
