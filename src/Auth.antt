-- ===== src/Auth.antt =====
-- src/auth.rs: authentication of a session.
pub mod Session
pub mod Service
