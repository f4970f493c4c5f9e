-- ===== src/Stores.antt =====
-- The in-memory stores of the backend, each a dict of dicts by tenant.
pub mod Buckets
pub mod Rules
pub mod RuleRuns
pub mod Fingerprints
pub mod Investigations
pub mod Recent
pub mod Tests
