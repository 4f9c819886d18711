-- ===== src/Remote.antt =====
-- The remote process server and its client (zprocess/remote).
pub mod Server
pub mod Client
mod Examples
