-- ===== src/Rpc.antt =====
-- RPC calls: src/blockchain/utils/rpc-backoff.util.ts.
pub mod Errors
pub mod Backoff
pub mod Providers
mod Tests
