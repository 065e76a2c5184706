-- ===== src/Tlv.antt =====
-- tlv.go: the type-length-value encoding of metadata values.
pub mod Types
pub mod Wire
pub mod Values
mod Runs
