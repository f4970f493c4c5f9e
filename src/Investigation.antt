-- ===== src/Investigation.antt =====
-- The state of an investigation and the rules that plan its next actions.
pub mod State
pub mod Planner
pub mod Iocs
pub mod Convergence
pub mod Reflection
pub mod Tools
pub mod Mapper
pub mod Mapped
pub mod MapperTests
pub mod Memory
pub mod Remembered
pub mod Records
pub mod Similar
pub mod Recalled
pub mod MemoryTests
pub mod Loop
pub mod Bounded
pub mod Collecting
pub mod Collected
pub mod Settled
pub mod Tests
pub mod LoopTests
