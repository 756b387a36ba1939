-- ===== src/Router.antt =====
-- internal/router: conversations between chats and agents.
pub mod Permission
pub mod Commands
pub mod Chats
pub mod Handle
pub mod Destination
pub mod Reply
pub mod Queue
pub mod Fifo
pub mod Work
pub mod Runs
pub mod Samples
