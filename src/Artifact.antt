-- ===== src/Artifact.antt =====
-- The versions of an artifact (shakenfist/artifact.py).
pub mod Order
pub mod Model
pub mod Kept
pub mod Unneeded
pub mod Versions
pub mod Recent
pub mod Runs
pub mod Dangling
pub mod Url
mod Tests
