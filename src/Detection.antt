-- ===== src/Detection.antt =====
-- crates/waf-detection: the modules that look at the shape of a request and not at its content.
pub mod Smuggling
pub mod Grpc
pub mod Graphql
pub mod Tests
