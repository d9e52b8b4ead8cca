-- ===== src/Cases.antt =====
-- src/cases.rs: the case service.
pub mod Errors
pub mod Names
pub mod Rows
pub mod Guards
pub mod Queries
pub mod Service
pub mod Lookup
pub mod Mutations
pub mod Invariants
pub mod Tenancy
