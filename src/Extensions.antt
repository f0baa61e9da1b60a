-- ===== src/Extensions.antt =====
-- src/extensions/: hooks around the phases of a request.
pub mod PersistedQueries
