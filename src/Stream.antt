-- ===== src/Stream.antt =====
-- src/loreline/stt/streaming.py: one provider's live transcription stream.
pub mod Model
pub mod Turns
pub mod Books
pub mod Evict
pub mod Invariant
pub mod Rows
pub mod Settle
pub mod Endings
pub mod Queue
pub mod Gaps
pub mod Connection
pub mod Serve
pub mod Run
pub mod Budget
pub mod Late
pub mod Marks
