-- ===== src/Acl.antt =====
-- internal/acl/acl.go: from the registry's snapshot and a request to a decision. The Cedar engine
-- is a parameter.
pub mod Word
pub mod Entities
pub mod Lists
pub mod Base
pub mod Engine
pub mod Evaluate
pub mod Names
pub mod Owners
pub mod Attributes
pub mod Overlay
pub mod Decisions
pub mod Principals
pub mod ServerNames
