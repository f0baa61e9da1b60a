-- ===== src/Parser.antt =====
-- parser/: the texts and positions that the parser computes. The grammar itself (graphql.pest) is
-- run by the pest crate and is not modelled.
pub mod Strings
pub mod TypeNames
