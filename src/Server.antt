-- ===== src/Server.antt =====
-- internal/server: the hub of sessions and the mediator of each profile.
pub mod Mediator
pub mod Hub
pub mod Handshake
pub mod Dispatch
