-- ===== src/Domain/Enums.antt =====
-- domain/enums.py, by the part of the program that uses the enumerations.
pub mod Source
pub mod Claim
pub mod Publication
pub mod Execution
pub mod Entity
