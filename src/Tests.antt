-- ===== src/Tests.antt =====
-- Concrete packets, tables and maps on which the theorems apply.
pub mod Flows
pub mod Messages
pub mod Maps
pub mod Filters
pub mod Trusts
pub mod Policies
