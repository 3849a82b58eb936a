-- ===== src/Server.antt =====
-- The package server: the HTTP handlers and the set-up of the servers.
pub mod Http
pub mod Events
pub mod Handlers
pub mod Catching
pub mod Access
pub mod Factory
pub mod Lifecycle
mod Tests
