-- ===== src/Blob.antt =====
-- The reference counts of blobs (shakenfist/blob.py).
pub mod Model
pub mod Count
pub mod Release
pub mod Fuel
mod Tests
