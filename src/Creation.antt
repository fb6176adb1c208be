-- ===== src/Creation.antt =====
-- The creation of an instance through the API (InstancesEndpoint.post of
-- shakenfist/external_api/instance.py): its checks, over artifacts, networks and namespaces.
pub mod Request
pub mod Disk
pub mod Checks
pub mod Accepted
pub mod Passed
mod Tests
