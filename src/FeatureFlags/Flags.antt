-- ===== src/FeatureFlags/Flags.antt =====
-- src/feature-flags/feature-flags.service.ts with its entity and types.
pub mod Types
pub mod Hash
pub mod Service
pub mod Evaluation
pub mod Settled
pub mod Rollout
