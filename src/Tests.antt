-- ===== src/Tests.antt =====
-- Runs on concrete data, and the theorems applied to them.
mod Fixture
mod Auth
mod Cases
mod Listing
mod Api
mod Transport
mod Nats
mod Listener
mod Server
mod Tenancy
mod Once
mod Stop
