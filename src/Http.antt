-- ===== src/Http.antt =====
-- src/http/: the protocols over which requests come.
pub mod WebSocket
