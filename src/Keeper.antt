-- ===== src/Keeper.antt =====
-- apps/keeper: the loop that repays debt when the health factor falls.
pub mod Core
pub mod Submit
