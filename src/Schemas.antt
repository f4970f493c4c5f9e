-- ===== src/Schemas.antt =====
-- The data that the parts of the backend exchange: backend/app/schemas.
pub mod Common
pub mod Alert
pub mod Findings
