-- ===== src/Store.antt =====
-- The rows of the local store that the collectives read: crates/missive-store/src/repository.rs. The
-- SQL behind them is not modelled.
pub mod Tasks
pub mod Jobs
pub mod Paths
