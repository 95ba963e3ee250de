-- ===== src/Models.antt =====
-- server/internal/models/models.go.
pub mod Enums
pub mod Records
pub mod Names
