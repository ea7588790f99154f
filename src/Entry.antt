-- ===== src/Entry.antt =====
-- clipboard-entry.h: class `clipboard_entry`, which serves the local files on the clipboard to the
-- remote side and fetches the remote files in a worker thread.
pub mod Types
pub mod Serve
pub mod Download
pub mod Path
pub mod Pending
pub mod Batch
pub mod Fetch
mod Tests
