-- ===== src/Anylink.antt =====
-- src/ads_protocol_client/anylink: the link to Istio, which asks for each of four types once.
pub mod Local
pub mod Address
pub mod Subscriptions
pub mod Manager
pub mod Link
pub mod Loggers
pub mod Identity
pub mod Hosts
pub mod Exchange
pub mod Registry
pub mod Statics
pub mod Worker
pub mod Spinning
pub mod Examples
