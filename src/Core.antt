-- ===== src/Core.antt =====
-- internal/core: the errors, the shared types and the checked arithmetic on amounts.
pub mod Errors
pub mod Types
pub mod Amount
