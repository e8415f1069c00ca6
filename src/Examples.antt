-- ===== src/Examples.antt =====
-- Test data, tests, and the theorems at concrete inputs.
pub mod Fixtures
pub mod Witnesses
pub mod Wallet
pub mod Vaults
pub mod Profiles
pub mod Appends
