-- ===== src/Config.antt =====
-- The configuration of pkg/config: its structs, the validator and the rules for single values.
pub mod Types
pub mod Values
pub mod Validator
pub mod IsValid
pub mod Tests
pub mod Sections
pub mod Accepts
pub mod Rules
pub mod RuleLaws
