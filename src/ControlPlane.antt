-- ===== src/ControlPlane.antt =====
-- crates/waf-controlplane: the governed part of its HTTP interface, and the export to a SIEM.
pub mod Server
pub mod Auth
pub mod Login
pub mod Accounts
pub mod AuditLog
pub mod Router
pub mod Keeps
pub mod Callers
pub mod Offboard
pub mod Revoked
pub mod Replay
pub mod Accountable
pub mod Privilege
pub mod Credentials
pub mod Setup
pub mod Siem
mod Tests
