-- ===== src/Auth.antt =====
-- Signing in with a wallet: src/auth.
pub mod Tokens
pub mod Login
mod Tests
