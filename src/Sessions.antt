-- ===== src/Sessions.antt =====
-- src/loreline/web/routes/sessions.py: the routes that make one transcript out of others.
pub mod Merge
pub mod Merged
pub mod Sources
pub mod Timeline
pub mod Best
