-- ===== src/Core.antt =====
-- crates/missive-core: errors, identifiers, configuration and routing kinds.
pub mod Error
pub mod Config
pub mod Routing
pub mod Json
pub mod Ids
