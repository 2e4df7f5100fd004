-- ===== src/Events.antt =====
-- The event backbone: src/services/events/ and src/workflows/.
pub mod Dispatch
pub mod Workflow
