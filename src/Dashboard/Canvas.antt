-- ===== src/Dashboard/Canvas.antt =====
-- apps/dashboard/lib/canvas: the compiler from placed blocks to a policy document and invariants.
pub mod Blocks
pub mod Compile
pub mod Reopen
