-- ===== src/Ingestion.antt =====
-- ingestion/: the plan of a full scan, and the structural diff of two versions of a note.
pub mod Counting
pub mod Planning
pub mod Diff
