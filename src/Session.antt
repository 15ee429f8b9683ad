-- ===== src/Session.antt =====
-- src/loreline/session: the life of a recording session above the stream and the router.
pub mod Path
pub mod Feed
pub mod Ends
pub mod Manager
pub mod Ledger
pub mod Once
pub mod Slot
pub mod Disk
pub mod Capture
pub mod Closing
pub mod Recording
pub mod Sink
pub mod Live
pub mod Reasons
