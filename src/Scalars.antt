-- ===== src/Scalars.antt =====
-- src/types/external/: Rust's types as scalars of GraphQL.
pub mod Integers
