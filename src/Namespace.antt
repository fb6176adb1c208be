-- ===== src/Namespace.antt =====
-- Namespaces, their keys and whom they trust, and the checks of the API that rest on them
-- (shakenfist/namespace.py, shakenfist/external_api/base.py and auth.py).
pub mod Model
pub mod Api
pub mod Keys
pub mod Tokens
pub mod Change
pub mod Revoked
pub mod Trusted
pub mod Login
pub mod Access
mod Tests
