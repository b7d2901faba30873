-- ===== src/Topic.antt =====
-- internal/topic: topic names and filters, and the subscription tree.
pub mod Parse
pub mod Tree
mod Tests
