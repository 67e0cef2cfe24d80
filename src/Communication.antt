-- ===== src/Communication.antt =====
-- src/communication: negotiation over HTTP, the connection with its reader and writer tasks, and the
-- monitor that reconnects.
pub mod Http
pub mod Socket
pub mod Tasks
pub mod Monitor
