-- ===== src/Service.antt =====
-- The package service: the subscription services, and the processing of captured events.
pub mod Subscriptions
pub mod Process
pub mod Hosts
pub mod Routing
mod Tests
