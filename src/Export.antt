-- ===== src/Export.antt =====
-- src/loreline/export.py: the versions of a transcript, and its subtitles.
pub mod Versions
pub mod Views
pub mod Spans
pub mod Cues
pub mod Layout
pub mod Playable
pub mod Runs
pub mod Clock
