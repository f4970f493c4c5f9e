-- ===== src/Dispatch.antt =====
-- The submission of investigations: backend/app/orchestrator/dispatch.py.
pub mod Dispatcher
pub mod Capacity
pub mod Tests
