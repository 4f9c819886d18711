-- ===== src/Process.antt =====
-- The parts of zprocess/process_tree.py that coordinate threads and processes.
pub mod KillLock
pub mod Heartbeat
pub mod Interruptor
pub mod Queues
pub mod Events
pub mod Tree
pub mod Startup
pub mod Output
pub mod Rich
mod Examples
