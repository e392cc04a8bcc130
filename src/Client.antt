-- ===== src/Client.antt =====
-- internal/client: what an agent does with a pushed truth, and when it nudges a refresh.
pub mod Apply
pub mod Refresh
pub mod Reporting
pub mod Reconnect
pub mod Tokens
