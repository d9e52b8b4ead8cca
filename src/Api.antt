-- ===== src/Api.antt =====
-- src/main.rs: the HTTP and WebSocket surface.
pub mod Errors
pub mod Origins
pub mod Access
pub mod Handlers
pub mod Sockets
