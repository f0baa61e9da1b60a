-- ===== src/Registry.antt =====
-- src/registry/: the names of types in the schema, and the cache control of types and fields.
pub mod TypeNames
pub mod CacheControl
pub mod Types
pub mod Visible
