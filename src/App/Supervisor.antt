-- ===== src/App/Supervisor.antt =====
-- src/app/supervisor.cpp and supervisor.hpp.
pub mod State
pub mod EncodeThread
pub mod Resources
pub mod Handlers
pub mod Run
pub mod Ownership
pub mod Escalation
pub mod Reconfiguration
pub mod Visits
pub mod Retries
