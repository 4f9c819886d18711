-- ===== src/Messages.antt =====
-- zprocess/clientserver.py: messages of a fixed kind between a server and its clients.
pub mod Data
pub mod Server
pub mod Sender
mod Examples
