-- ===== src/Cli.antt =====
-- The command line tool: the queue of events that it keeps on the machine, and their upload.
pub mod Redaction
pub mod Store
pub mod Queue
pub mod Metadata
pub mod Sync
