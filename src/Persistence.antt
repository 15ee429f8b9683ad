-- ===== src/Persistence.antt =====
-- src/loreline/persistence/repositories.py: the tables of transcript segments and of jobs.
pub mod Segments
pub mod Order
pub mod Turns
pub mod Sorted
