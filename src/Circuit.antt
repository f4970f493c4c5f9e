-- ===== src/Circuit.antt =====
-- The circuit breaker of the threat-intelligence connectors.
pub mod Breaker
pub mod Tests
