-- ===== src/FeatureFlags.antt =====
-- Runtime configuration: src/feature-flags.
pub mod Configuration
pub mod Flags
mod Tests
