-- ===== src/Receipts.antt =====
-- packages/receipts: digests and Merkle trees.
pub mod Hash
pub mod Merkle
pub mod Canonical
pub mod Receipt
