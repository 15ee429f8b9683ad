-- ===== src/Audio.antt =====
-- src/loreline/audio: the chunker of the utterance path, the rolling window of captured audio, and the
-- browser's microphone.
pub mod Chunker
pub mod Chunks
pub mod Rolling
pub mod Client
pub mod Mic
pub mod Feed
pub mod Window
