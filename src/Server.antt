-- ===== src/Server.antt =====
-- internal/server: connections, the handlers of packets, and the delivery of messages.
pub mod Templates
pub mod Connections
pub mod Sessions
pub mod Security
pub mod Delivery
mod Tests
