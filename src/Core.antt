-- ===== src/Core.antt =====
-- crates/waf-core: the contract between the pipeline, the normalizer and the detection modules, the
-- configuration and its validation, and the resolution of the client's address.
pub mod Decision
pub mod Config
pub mod Request
pub mod Network
pub mod Validate
mod Tests
