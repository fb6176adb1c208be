-- ===== src/Queue.antt =====
-- The work queues in etcd (shakenfist/etcd.py).
pub mod Model
pub mod Outstanding
pub mod Runs
mod Tests
