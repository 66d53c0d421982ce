-- ===== src/Domain/Transitions.antt =====
-- domain/transitions.py: the declared transitions, and what they imply for whole lives of a record.
pub mod Source
pub mod Claim
pub mod Publication
pub mod Execution
pub mod Traces
pub mod Lifecycles
pub mod Pipeline
mod Examples
