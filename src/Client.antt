-- ===== src/Client.antt =====
-- mini-qf-client.cc: the callbacks of the clipboard channel and the session's thread.
pub mod Formats
pub mod Files
pub mod Session
pub mod Frame
pub mod Setup
pub mod Paint
pub mod Connect
pub mod Program
pub mod Copy
mod Tests
