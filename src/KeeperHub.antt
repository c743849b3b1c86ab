-- ===== src/KeeperHub.antt =====
-- packages/keeperhub: the adapter of the KeeperHub API.
pub mod Json
pub mod Http
pub mod Reason
pub mod Outcomes
pub mod Client
pub mod Polling
pub mod Simulate
