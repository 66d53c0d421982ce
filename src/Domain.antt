-- ===== src/Domain.antt =====
-- The domain package: enumerations, errors and state machines.
pub mod Enums
pub mod Errors
pub mod Machine
pub mod Transitions
