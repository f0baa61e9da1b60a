-- ===== src/Schema.antt =====
-- src/schema.rs: what a request's document goes through before it is executed.
pub mod Limits
pub mod Skips
pub mod Prepare
