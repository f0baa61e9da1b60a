-- ===== src/Lib.antt =====
-- A verification library for async-graphql, a GraphQL server library: a document is parsed
-- (parser/), validated against a registry of types (src/registry/, src/validation/), and executed by
-- resolvers that may batch their loads (src/dataloader/), over HTTP or a WebSocket (src/http/).
--
-- Which file models which part:
--
-- Prelude: tests, lists, sets and maps as lists, results, slices of a text. A text is a list of
--   character codes; a `HashSet` is a list read through `contains`, a `HashMap` a list of pairs read
--   through `get`. The order in which a hash map is walked is one of the possible orders.
-- Value: `ConstValue` and `Value` of value/src/lib.rs, over a parameter for the numbers, and
--   `referenced_variables` of src/validation/utils.rs. Value.Print has the `Display` instances and
--   `write_quoted`; Value.Convert and Value.Display have the theorems.
-- Parser.Strings: `string_value` of parser/src/parse/utils.rs; a panic is `none`. Parser.TypeNames:
--   `Type` and `BaseType` of parser/src/types/mod.rs, their `Display`, and `Type::new`.
-- Registry.TypeNames: `MetaTypeName` of src/registry/mod.rs. It works on the text of a type, so
--   that recursion is on fuel; the length of the texts is enough. Registry.CacheControl:
--   src/registry/cache_control.rs and the fold by which the visitor merges a query's parts.
-- Validation: rules of src/validation/rules/. A rule is a record of what it has collected, and each
--   handler of its visitor is a function that returns the changed record. Validation.Graph is the
--   walk over fragment spreads that the rules share. Its fuel bounds the depth of the calls; one more
--   than the number of spreads is enough, which its theorems prove.
-- DataLoader: src/dataloader/mod.rs for one type of keys. The state has the waiting requests, the
--   spawned futures and what was sent through the channels; DataLoader.Steps has its runs, in any
--   order of calls, ends of delays and answers of the loader, which is a parameter. DataLoader.Cache
--   is the interface of the cache storages (src/dataloader/cache.rs) with two implementations. The
--   requests stand from the start; in the code the first call makes them, and `enable_cache` panics
--   before it.
-- Document: an executable document of parser/src/types/executable.rs, with lists for its maps.
-- Registry.Types: the types of a schema and what is asked of them. Registry.Visible: which types are
--   used and which ones a request may see. A map is a list in the order of its keys. Both walks are
--   on fuel; more than the number of names that the schema mentions, and for the second the number of
--   types besides, is enough.
-- Validation.InputValues: `is_valid_input_value` of src/validation/utils.rs. Its fuel is for the calls
--   of itself: more than the layers of the type and, for each list or object in the value, one, with
--   the layers of the fields' types for an object, is enough.
-- Types.MaybeUndefined: src/types/maybe_undefined.rs.
-- Scalars.Integers: the integer types of src/types/external/integers.rs. One definition stands for the
--   code that is repeated for each type; the type is its argument.
-- Extensions.PersistedQueries: src/extensions/apollo_persisted_queries.rs, with the storage, the hash
--   and the parser as parameters.
-- Schema: src/schema.rs. Schema.Limits has the checks of
--   depth and of directives, with fuel two above the limit of the depth, which its theorems prove to
--   be enough, Schema.Skips `remove_skipped_selection`, and Schema.Prepare `prepare_request`, for which
--   the parser, the rules and the hooks of the extensions are parameters.
-- Http.WebSocket: one connection of src/http/websocket.rs, as poll_next drives it. The messages that
--   are ready stand in the state; a record has what the timer, the futures and the streams answer.
--   The state also keeps for what payloads the init handler was taken.
-- Not modelled: the grammar (parser/src/graphql.pest and the pest crate), serde, the derive macros,
-- execution of resolvers, the tracing extensions, the HTML pages, the web framework integrations.
pub mod Prelude
pub mod Value
pub mod Document
pub mod Parser
pub mod Registry
pub mod Validation
pub mod DataLoader
pub mod Types
pub mod Scalars
pub mod Extensions
pub mod Schema
pub mod Http
