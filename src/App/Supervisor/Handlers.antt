-- ===== src/App/Supervisor/Handlers.antt =====
-- The state handlers of src/app/supervisor.cpp, each with a record of what it meets outside: clock
-- readings in microseconds, answers of the components' libraries, and requests to stop.
pub mod Probing
pub mod Placeholder
pub mod Connecting
pub mod Streaming
pub mod Stalled
pub mod Recovery
