-- ===== src/Reprocess.antt =====
-- src/loreline/reprocess/jobs.py: running a stored session's audio through a provider or a diarizer again.
pub mod Job
pub mod Table
pub mod Work
pub mod Run
pub mod Settled
pub mod Kept
pub mod Nothing
pub mod Foreign
pub mod OneVersion
pub mod Copies
pub mod Cut
pub mod Shown
pub mod Whole
pub mod Manager
pub mod Deleted
pub mod Accepted
pub mod Swept
pub mod Stored
pub mod Transcribed
