-- ===== src/App/Supervisor/Ownership.antt =====
-- Which objects the supervisor holds in which state of src/app/supervisor.cpp, and that no handler
-- calls through an empty pointer or overwrites a running thread.
pub mod Defs
pub mod Thread
pub mod Helpers
pub mod Waiting
pub mod Placeholder
pub mod FirstFrame
pub mod Connecting
pub mod Publishing
pub mod Recovery
pub mod Run
pub mod Shutdown
pub mod Stop
