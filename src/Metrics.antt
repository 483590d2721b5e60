-- ===== src/Metrics.antt =====
-- metrics.go: the counters, and their asynchronous recording through a ring buffer.
pub mod Ring
pub mod Store
pub mod Async
mod Tests
