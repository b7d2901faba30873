-- ===== src/Session.antt =====
-- internal/session: sessions, their bounded delivery queues and the store that accounts for them.
pub mod Limits
pub mod State
pub mod Queue
pub mod Subscriptions
pub mod Store
mod Tests
