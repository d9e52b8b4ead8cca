-- ===== src/Transport/Nats.antt =====
-- The JetStream status worker: `transport::nats`.
pub mod Options
pub mod Topology
pub mod Worker
pub mod Queue
