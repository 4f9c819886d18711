-- ===== src/Zlock.antt =====
-- zprocess/zlock: the lock server and its client.
pub mod Lock
pub mod Server
pub mod Client
