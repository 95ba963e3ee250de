-- ===== src/Secret.antt =====
-- server/internal/secret/secret.go: password hashes, random tokens, and secrets that are stored
-- encrypted. Argon2id (golang.org/x/crypto) and AES-GCM are parameters.
pub mod Base64
pub mod Password
pub mod Random
pub mod Sealed
mod Tests
