-- ===== src/Answer.antt =====
-- The answer package: trusted question answering over the retrieved evidence.
pub mod Contracts
pub mod Evidence
pub mod Verification
pub mod Rendering
pub mod Runs
pub mod Planning
pub mod Results
pub mod Environment
pub mod Sessions
pub mod Service
mod Examples
