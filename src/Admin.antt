-- ===== src/Admin.antt =====
-- server/internal/admin: the operator console.
pub mod Console
pub mod Trail
pub mod Flash
pub mod Session
pub mod Fleet
pub mod Traffic
pub mod Access
pub mod Keys
pub mod Routing
pub mod Actions
pub mod Overview
pub mod Pages
pub mod Secrets
pub mod Render
pub mod Settings
mod Tests
