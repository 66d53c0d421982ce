-- ===== src/Publication.antt =====
-- publication/: the contracts, the split of a curated note into chunks, their indexing, the
-- reconciliation of the index, and retrieval over the index and the control plane.
pub mod Contracts
pub mod Markdown
pub mod Chunking
pub mod Indexing
pub mod Reconciliation
pub mod Retrieval
