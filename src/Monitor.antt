-- ===== src/Monitor.antt =====
-- internal/monitor/monitor.go: one check, the worker pool that runs many at once, and the tick that
-- records and publishes them.
pub mod Types
pub mod Check
pub mod Pool
pub mod Tick
pub mod Tests
