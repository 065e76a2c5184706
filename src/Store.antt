-- ===== src/Store.antt =====
-- The container file: its header, its metadata and its blocks, over a file of bytes.
pub mod Disk
pub mod Header
pub mod Block
pub mod Container
pub mod Metadata
mod Runs
