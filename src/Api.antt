-- ===== src/Api.antt =====
-- server/internal/api: the REST surface for clients and devices.
pub mod Reply
pub mod Auth
pub mod RateLimit
pub mod Messages
pub mod Device
pub mod Listing
pub mod Server
pub mod Socket
mod Tests
