-- ===== src/Persistence.antt =====
-- persistence/: the repositories of the control plane.
pub mod Leases
pub mod Tables
pub mod Generations
pub mod Publications
pub mod OperationLogs
