-- ===== src/Schema.antt =====
-- crates/waf-schema-enforcement: an API's requests are held against its OpenAPI document.
pub mod Value
pub mod Outcome
pub mod Rules
pub mod Router
pub mod Contract
pub mod Dialect
pub mod Compile
pub mod Enforce
pub mod Tests
