-- ===== src/A2a.antt =====
-- crates/missive-a2a/src/lib.rs: Agent Cards, the negotiation of an interface, and event streams.
pub mod Card
pub mod Negotiate
pub mod Usable
pub mod Chosen
pub mod Sse
mod Examples
