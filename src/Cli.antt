-- ===== src/Cli.antt =====
-- crates/missive-cli: of the commands, the collectives over the agents of a group.
pub mod Barrier
pub mod Bcast
pub mod FileNames
pub mod Gather
pub mod Reduce
