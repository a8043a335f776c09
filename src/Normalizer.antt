-- ===== src/Normalizer.antt =====
-- crates/waf-normalizer: the canonical form of a request, before any rule looks at it.
pub mod Percent
pub mod Canonical
pub mod Path
pub mod Base64
pub mod Grpc
pub mod Graphql
pub mod Fields
mod Tests
