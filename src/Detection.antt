-- ===== src/Detection.antt =====
-- The detection rules and the engine that evaluates them: backend/app/engines/detection.
pub mod Rules
pub mod Fields
pub mod Engine
pub mod Builtin
pub mod Evidence
pub mod Justified
pub mod Evaluation
pub mod Tests
