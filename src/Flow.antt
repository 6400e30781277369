-- ===== src/Flow.antt =====
-- internal/node/flow/flow.go: the connection table below the ACL.
pub mod State
pub mod Inspect
pub mod Dns
pub mod Handle
pub mod Sweep
pub mod Purge
pub mod Keys
pub mod Settle
pub mod Totals
pub mod Account
pub mod Fragments
pub mod Verdict
pub mod Questions
