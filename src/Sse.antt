-- ===== src/Sse.antt =====
-- internal/sse/hub.go: the wire format of an event, and the broadcast hub.
pub mod Frame
pub mod Hub
pub mod Tests
