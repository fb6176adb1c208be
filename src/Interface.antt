-- ===== src/Interface.antt =====
-- Network interfaces: their addresses, floating addresses and MAC addresses
-- (shakenfist/networkinterface.py, shakenfist/external_api/util.py and
-- _netdesc_allocate_address of shakenfist/external_api/instance.py), over Ipam.
pub mod Model
pub mod Allocate
pub mod Given
pub mod Floating
pub mod Joined
pub mod Macs
pub mod Left
mod Tests
