-- ===== src/Claims.antt =====
-- Claims: src/claims and the cache of src/cache/claims.cache.ts.
pub mod Entity
pub mod Service
pub mod Resolution
mod Tests
