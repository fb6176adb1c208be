-- ===== src/Instance.antt =====
-- Instances: their disks, their placement, their power and what happens when they fail
-- (shakenfist/instance.py).
pub mod Disks
pub mod Devices
pub mod References
pub mod Placement
pub mod Listed
pub mod Power
pub mod AgentOperations
pub mod Attempts
pub mod Fifo
pub mod Failure
pub mod Failing
pub mod Deletion
pub mod Created
pub mod Ports
pub mod Fresh
pub mod Owned
mod Tests
