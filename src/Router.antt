-- ===== src/Router.antt =====
-- crates/missive-router: the routing policies.
pub mod Labels
pub mod Types
pub mod Match
pub mod Policies
pub mod Plans
mod Examples
