-- ===== src/Identity.antt =====
-- Sessions, authentication and login: src/services/identity/ and src/api/routes/auth.py.
pub mod Sessions
pub mod Authentication
pub mod Login
