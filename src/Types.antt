-- ===== src/Types.antt =====
-- src/types/: the types that the library adds to Rust's own.
pub mod MaybeUndefined
