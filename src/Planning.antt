-- ===== src/Planning.antt =====
-- The planning layer: backend/app/agents/planning.
pub mod Json
pub mod Task
pub mod Graph
pub mod Scheduler
pub mod Sound
pub mod Growing
pub mod Updates
pub mod Batch
pub mod Attempts
pub mod Ready
pub mod Unblocked
pub mod Complete
pub mod Runs
pub mod Tests
