-- ===== src/Observability.antt =====
-- packages/observability/src/registry.ts, of which apps/dashboard/lib/observability/registry.ts is a
-- copy: metrics and their text.
pub mod Labels
pub mod Registry
