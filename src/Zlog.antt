-- ===== src/Zlog.antt =====
-- zprocess/zlog: the log server and its client.
pub mod Server
pub mod Client
mod Examples
