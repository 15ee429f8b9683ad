-- ===== src/Router.antt =====
-- src/loreline/stt/router.py: one request per utterance, with failover.
pub mod Model
pub mod Streaks
pub mod Exhaustion
