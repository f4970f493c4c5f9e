-- ===== src/Approvals.antt =====
-- Human approval of containment actions: backend/app/schemas/approval.py and
-- backend/app/engines/approvals/service.py.
pub mod Types
pub mod Store
pub mod Memory
pub mod Service
pub mod Lifecycle
pub mod Progress
pub mod Writes
pub mod Methods
pub mod Creating
pub mod Runs
pub mod Deciding
pub mod Filters
pub mod Listing
pub mod Isolation
mod Tests
