-- ===== src/Governance.antt =====
-- crates/waf-governance: who may do what on the control plane.
pub mod Rbac
pub mod Throttle
pub mod Audit
pub mod Store
mod Tests
