-- ===== src/Server.antt =====
-- src/server.rs: the accept loop (`Accept`), the service of one request (`Service`), and the
-- background tasks (`Tasks`).
pub mod Accept
pub mod Service
pub mod Tasks
pub mod Permits
pub mod Connections
pub mod Statuses
pub mod Recorded
pub mod Drain
