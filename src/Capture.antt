-- ===== src/Capture.antt =====
-- crates/waf-capture: the requests kept for forensics, as they are held until their verdict is known.
pub mod Request
pub mod Ring
mod Tests
