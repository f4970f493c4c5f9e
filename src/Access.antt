-- ===== src/Access.antt =====
-- Who may do what, and what the backend may ask: backend/app/core/authz.py, backend/app/core/security.py and backend/app/core/ssrf.py.
pub mod Roles
pub mod Matrix
pub mod Resources
pub mod Claims
pub mod Keys
pub mod Rotation
pub mod Tests
pub mod Egress
pub mod Outside
pub mod EgressTests
