-- ===== src/Dashboard.antt =====
-- apps/dashboard: the part of the application that decides, broadcasts and keeps holds.
pub mod Ledger
pub mod Requests
pub mod Execute
pub mod Routes
pub mod Amounts
pub mod Canvas
