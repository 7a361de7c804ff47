-- ===== src/Common.antt =====
-- src/common: the types that the components exchange, the codes of errors, files and the clock.
pub mod Types
pub mod Backoff
pub mod Time
pub mod AtomicFile
pub mod Errors
