-- ===== src/Server.antt =====
-- The program of src/main.rs: its pages, its router, and its start.
pub mod Pages
pub mod Router
pub mod Cors
pub mod Logs
pub mod Start
pub mod Stop
