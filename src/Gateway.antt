-- ===== src/Gateway.antt =====
-- crates/missive-gateway: the policies and the job manager of the gateway daemon.
pub mod Input
pub mod Busy
pub mod Jobs
pub mod Session
pub mod Subscription
pub mod Webhook
