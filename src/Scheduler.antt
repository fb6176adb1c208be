-- ===== src/Scheduler.antt =====
-- Choosing the nodes that an instance may run on (shakenfist/scheduler.py).
pub mod Metrics
pub mod Groups
pub mod Best
pub mod Find
pub mod Filter
pub mod Suitable
pub mod Choice
pub mod Chosen
mod Tests
