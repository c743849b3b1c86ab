-- ===== src/Policy/Rules.antt =====
-- packages/policy/src/rules.ts.
pub mod Calls
pub mod Static
pub mod Limits
pub mod Holds
