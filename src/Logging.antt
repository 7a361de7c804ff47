-- ===== src/Logging.antt =====
-- src/logging: the JSON Lines event log.
pub mod Sink
pub mod Json
