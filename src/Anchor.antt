-- ===== src/Anchor.antt =====
-- apps/anchor, packages/receipts/src/anchor.ts and scripts/anchoring.ts: batches of receipts, rooted
-- in Merkle trees.
pub mod Batch
pub mod Service
pub mod Batches
pub mod Script
