-- ===== src/Query.antt =====
-- The queries and events of include/minicomps: how a call reaches its handler and a result its sender.
pub mod Result
pub mod Async
pub mod Sync
pub mod Event
pub mod Interface
pub mod Loop
