-- ===== src/Governance.antt =====
-- The governance package: evidence contracts and the quality policy.
pub mod Contracts
pub mod RiskLevels
pub mod Metrics
pub mod Quality
