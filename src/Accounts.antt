-- ===== src/Accounts.antt =====
-- Native accounts: backend/app/core/accounts.py, and the routes of backend/app/api/v1/routes/auth.py that
-- register and sign in.
pub mod Passwords
pub mod Store
pub mod Routes
pub mod Limits
pub mod SignIn
pub mod Login
pub mod Tests
