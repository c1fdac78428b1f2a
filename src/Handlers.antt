-- ===== src/Handlers.antt =====
-- internal/handlers: the views that are rendered and published, and the handlers of the targets.
pub mod Writer
pub mod Views
pub mod Targets
pub mod Routes
pub mod Events
pub mod Tests
