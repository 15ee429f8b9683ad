-- ===== src/Diarize.antt =====
-- src/loreline/diarization/merge.py, and `merge_diarization` of src/loreline/stt/router.py.
pub mod Merge
pub mod Dominant
pub mod Segments
