-- ===== src/ObjectState.antt =====
-- The state machine of the database backed objects: the state names and `state_targets` of every
-- class, and the validation that `_state_update` makes (shakenfist/baseobject.py, and the class
-- attributes of agentoperation.py, baseoperation.py, artifact.py, blob.py, instance.py, ipam.py,
-- namespace.py, network.py, networkinterface.py, node.py and upload.py).
pub mod Names
pub mod Tables
pub mod Documented
pub mod Cache
pub mod CacheLaws
pub mod Update
pub mod Machine
pub mod Runs
pub mod Iterate
pub mod Members
pub mod Iterated
pub mod Upgrade
pub mod Upgraded
pub mod Remembered
pub mod Reach
mod Tests
