-- ===== src/Ipam.antt =====
-- The allocation of the addresses of a network (shakenfist/ipam.py).
pub mod Block
pub mod Model
pub mod Allocate
pub mod Halo
pub mod Freed
pub mod Reserve
pub mod Release
pub mod Outcome
pub mod Allocation
mod Tests
