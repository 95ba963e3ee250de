-- ===== src/Ws.antt =====
-- server/internal/ws: the frames and the hub of device connections.
pub mod Protocol
pub mod Hub
