-- ===== src/Router.antt =====
-- server/internal/router: phone numbers and operators, and the engine that picks a SIM.
pub mod Msisdn
pub mod Engine
pub mod Carrier
