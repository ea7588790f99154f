-- ===== src/Channel.antt =====
-- qf_channel_client_handler.c: the handler that sits between a virtual channel and its plugin. It
-- puts the chunks of a message together and hands the message to the plugin, at once or through a
-- queue that a thread empties.
pub mod Stream
pub mod Defs
pub mod Chunks
pub mod Reassembly
pub mod Delivery
pub mod Worker
pub mod Modes
pub mod Lifecycle
pub mod Pipe
pub mod Interleaved
mod Tests
