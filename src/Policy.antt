-- ===== src/Policy.antt =====
-- packages/policy: the policy VM, a pure function of intent, policy and context.
pub mod Types
pub mod Schema
pub mod Samples
pub mod Rules
pub mod Evaluate
pub mod Permits
pub mod Negative
