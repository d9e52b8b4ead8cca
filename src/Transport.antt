-- ===== src/Transport.antt =====
-- The opt-in transports of src/transport.rs.
pub mod Options
pub mod Tls
pub mod Listener
pub mod Tcp
pub mod Nats
