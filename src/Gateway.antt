-- ===== src/Gateway.antt =====
-- apps/gateway: the authorization gateway.
pub mod Holds
pub mod Authorize
pub mod App
pub mod Publish
